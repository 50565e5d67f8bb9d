-- ===== src/Mcp/Server/Moves.antt =====
-- What one move of the loop of the MCP server keeps (mcp-rs/src/server.rs).
use mcproc.Prelude.{
  ℕ, zero, suc, ◌+◌, ◌*◌, ◌<◌, ◌≡◌, refl, ap, inl, inr, Bool, true, ◌&&◌, List, [], ◌∷◌, ◌++◌,
  Option, none, some, ltb, if◌then◌else◌, length, length-append, is_empty, Bool-cases, arith,
}
use mcproc.Mcp.Server.{
  outgoing_channel_capacity, Phase, serving, draining, closed, Server, Move, receive, end_of_input,
  send, close, queue, join, keep_task, next_of, keep_front, join_next, with_queued, with_joined,
  with_sent, with_received, serving_step, draining_step, step_in,
}

module _ {M : Type 0} (f : M → Bool) where
  abbrev pub count : List M → ℕ
  count [] = 0
  count (m ∷ ms) = (if f m then 1 else 0) + count ms

  count-append : (xs ys : List M) → count (xs ++ ys) ≡ count xs + count ys
  count-append [] ys = omega arith
  count-append (x ∷ xs) ys = omega (arith, count-append xs ys)

  abbrev pub count_tasks : List (List M) → ℕ
  count_tasks [] = 0
  count_tasks (t ∷ ts) = count t + count_tasks ts

  count_tasks-append :
      (xs ys : List (List M)) → count_tasks (xs ++ ys) ≡ count_tasks xs + count_tasks ys
  count_tasks-append [] ys = omega arith
  count_tasks-append (x ∷ xs) ys = omega (arith, count_tasks-append xs ys)

  -- What taking a message from a task, and a task from the list, changes.
  Took : List (List M) → Option (M × List (List M)) → Type 0
  Took ts none = Unit
  Took ts (some (m, rest)) =
      (count_tasks ts ≡ (if f m then 1 else 0) + count_tasks rest) × (length ts ≡ length rest)

  keep_task-Took :
      (t : List M) (ts : List (List M)) (o : Option (M × List (List M)))
      → Took ts o
      → Took (t ∷ ts) (keep_task t o)
  unfolding Took keep_task
  keep_task-Took t ts none h = tt
  keep_task-Took t ts (some (m, rest)) (c, l) = (omega (arith, c), omega (arith, l))

  next_of-Took : (i : ℕ) (ts : List (List M)) → Took ts (next_of i ts)
  unfolding Took next_of
  next_of-Took zero [] = tt
  next_of-Took (suc i) [] = tt
  next_of-Took zero ([] ∷ ts) = tt
  next_of-Took zero ((m ∷ t) ∷ ts) = (omega arith, refl)
  next_of-Took (suc i) (t ∷ ts) = keep_task-Took t ts (next_of i ts) (next_of-Took i ts)

  Joined : List (List M) → Option (List (List M)) → Type 0
  Joined ts none = Unit
  Joined ts (some rest) = (count_tasks ts ≡ count_tasks rest) × (length ts ≡ suc (length rest))

  keep_front-Joined :
      (t : List M) (ts : List (List M)) (o : Option (List (List M)))
      → Joined ts o
      → Joined (t ∷ ts) (keep_front t o)
  unfolding Joined keep_front
  keep_front-Joined t ts none h = tt
  keep_front-Joined t ts (some rest) (c, l) = (omega (arith, c), omega (arith, l))

  join_next-Joined : (i : ℕ) (ts : List (List M)) → Joined ts (join_next i ts)
  unfolding Joined join_next
  join_next-Joined zero [] = tt
  join_next-Joined (suc i) [] = tt
  join_next-Joined zero ([] ∷ ts) = (omega arith, refl)
  join_next-Joined zero ((m ∷ t) ∷ ts) = tt
  join_next-Joined (suc i) (t ∷ ts) =
      keep_front-Joined t ts (join_next i ts) (join_next-Joined i ts)

abbrev pub every : {M : Type 0} → M → Bool
every m = true

abbrev pub phase_weight : Phase → ℕ
phase_weight serving = 2
phase_weight draining = 1
phase_weight closed = 0

module _ {M : Type 0} (work : M → List M) where
  -- The messages that will be queued for those that are still to be received.
  abbrev pub count_work : (M → Bool) → List M → ℕ
  count_work f [] = 0
  count_work f (m ∷ ms) = count f (work m) + count_work f ms

  -- All that is sent, queued or still to be queued.
  abbrev pub total : (M → Bool) → Server M → ℕ
  total f s =
      count f s.sent + count f s.outgoing + count_tasks f s.handler_tasks + count_work f s.incoming

  abbrev pub weight : Server M → ℕ
  weight s =
      phase_weight s.phase
      + length s.handler_tasks
      + 2 * length s.incoming
      + 2 * count_tasks every s.handler_tasks
      + 2 * count_work every s.incoming
      + count every s.outgoing

  -- A move keeps the messages and has fewer moves behind it.
  unfoldable pub Good : (M → Bool) → Server M → Option (Server M) → Type 0
  Good f s none = Unit
  Good f s (some t) = (total f t ≡ total f s) × (weight t < weight s)

  received-Good :
      (f : M → Bool) (s : Server M) (ms : List M)
      → s.incoming ≡ ms
      → Good f s (with_received work s ms)
  unfolding Good with_received
  received-Good f s [] e = tt
  received-Good f s (m ∷ ms) e = (
    omega (arith, ap (count_work f) e, count_tasks-append f s.handler_tasks (work m ∷ [])),
    omega (
      arith,
      ap (count_work every) e,
      ap (length {A = M}) e,
      count_tasks-append every s.handler_tasks (work m ∷ []),
      length-append s.handler_tasks (work m ∷ []),
    ),
  )

  sent-Good :
      (f : M → Bool) (s : Server M) (ms : List M) → s.outgoing ≡ ms → Good f s (with_sent s ms)
  unfolding Good with_sent
  sent-Good f s [] e = tt
  sent-Good f s (m ∷ ms) e = (
    omega (arith, ap (count f) e, count-append f s.sent (m ∷ [])),
    omega (arith, ap (count every) e),
  )

  Joined-Good :
      (f : M → Bool) (s : Server M) (o : Option (List (List M)))
      → Joined f s.handler_tasks o
      → Joined every s.handler_tasks o
      → Good f s (with_joined s o)
  unfolding Good with_joined Joined
  Joined-Good f s none h k = tt
  Joined-Good f s (some rest) (c, l) (d, l') = (omega (arith, c), omega (arith, d, l))

  queued-Good :
      (f : M → Bool) (s : Server M) (o : Option (M × List (List M)))
      → Took f s.handler_tasks o
      → Took every s.handler_tasks o
      → Good f s (with_queued s o)
  unfolding Good with_queued Took
  queued-Good f s none h k = tt
  queued-Good f s (some (m, rest)) (c, l) (d, l') =
      elim (Bool-cases (ltb (length s.outgoing) outgoing_channel_capacity)) [
        | inr full ↦ rw full tt
        | inl room ↦ rw room (
          omega (arith, c, count-append f s.outgoing (m ∷ [])),
          omega (arith, d, l, count-append every s.outgoing (m ∷ [])),
        )
      ]

  serving-Good :
      (f : M → Bool) (move : Move) (s : Server M)
      → s.phase ≡ serving
      → Good f s (serving_step work move s)
  unfolding serving_step
  serving-Good f receive s e = received-Good f s s.incoming refl
  serving-Good f end_of_input s e =
      unfold Good in
      elim (Bool-cases (is_empty s.incoming)) [
        | inl last ↦ rw last (refl, omega (arith, ap phase_weight e))
        | inr more ↦ rw more tt
      ]
  serving-Good f (queue i) s e =
      queued-Good f s (next_of i s.handler_tasks) (next_of-Took f i s.handler_tasks)
        (next_of-Took every i s.handler_tasks)
  serving-Good f send s e = sent-Good f s s.outgoing refl
  serving-Good f (join i) s e =
      Joined-Good f s (join_next i s.handler_tasks) (join_next-Joined f i s.handler_tasks)
        (join_next-Joined every i s.handler_tasks)
  serving-Good f close s e = unfold Good in tt

  draining-Good :
      (f : M → Bool) (move : Move) (s : Server M)
      → s.phase ≡ draining
      → Good f s (draining_step work move s)
  unfolding draining_step
  draining-Good f receive s e = unfold Good in tt
  draining-Good f end_of_input s e = unfold Good in tt
  draining-Good f (queue i) s e =
      queued-Good f s (next_of i s.handler_tasks) (next_of-Took f i s.handler_tasks)
        (next_of-Took every i s.handler_tasks)
  draining-Good f send s e = sent-Good f s s.outgoing refl
  draining-Good f (join i) s e =
      Joined-Good f s (join_next i s.handler_tasks) (join_next-Joined f i s.handler_tasks)
        (join_next-Joined every i s.handler_tasks)
  draining-Good f close s e =
      unfold Good in
      elim (Bool-cases (is_empty s.handler_tasks && is_empty s.outgoing)) [
        | inl done ↦ rw done (refl, omega (arith, ap phase_weight e))
        | inr more ↦ rw more tt
      ]

  pub step_in-Good :
      (f : M → Bool) (move : Move) (s : Server M) (p : Phase)
      → s.phase ≡ p
      → Good f s (step_in work p move s)
  unfolding step_in
  step_in-Good f move s serving e = serving-Good f move s e
  step_in-Good f move s draining e = draining-Good f move s e
  step_in-Good f move s closed e = unfold Good in tt
