-- ===== src/Mcp/Server/Drains.antt =====
-- The loop of the MCP server loses no message and comes to its end (mcp-rs/src/server.rs).
use mcproc.Prelude.{
  ℕ, ◌+◌, ◌≤◌, ◌≡◌, refl, ap, ◌∙◌, subst, ◌⊎◌, inl, inr, Bool, ◌&&◌, List, [], ◌∷◌, ◌++◌, Option,
  none, some, ltb, if◌then◌else◌, length, is_empty, some_inj, arith,
}
use mcproc.Mcp.Server.{
  outgoing_channel_capacity, Phase, serving, draining, closed, Server, Move, receive, end_of_input,
  send, close, queue, join, init, next_of, join_next, with_queued, with_joined, with_sent,
  with_received, serving_step, draining_step, step_in, step, and_then, run,
}
use mcproc.Mcp.Server.Moves.{
  count, count_tasks, count_work, every, total, weight, Good, step_in-Good,
}
use mcproc.Mcp.Server.Quiet.{Quiet, StaysQuiet, step_in-StaysQuiet}

module _ {M : Type 0} (work : M → List M) where
  -- A move that is possible.
  abbrev pub CanMove : Server M → Type 0
  CanMove s = (move : Move) × (t : Server M) × (step work move s ≡ some t)

  at_phase :
      (s t : Server M) (p : Phase) (move : Move)
      → s.phase ≡ p
      → step_in work p move s ≡ some t
      → CanMove s
  unfolding step
  at_phase s t p move e h = (move, t, ap (λ q. step_in work q move s) e ∙ h)

  can_queue :
      (s : Server M) (m : M) (t : List M) (ts : List (List M))
      → s.outgoing ≡ []
      → s.handler_tasks ≡ (m ∷ t) ∷ ts
      → (u : Server M) × (with_queued s (next_of 0 s.handler_tasks) ≡ some u)
  unfolding with_queued next_of
  can_queue s m t ts o e = (
    record s { handler_tasks = t ∷ ts; outgoing = s.outgoing ++ m ∷ [] },
    ap (λ us. with_queued s (next_of 0 us)) e
        ∙ ap
            (λ (n : ℕ).
              if ltb n outgoing_channel_capacity
              then some (record s { handler_tasks = t ∷ ts; outgoing = s.outgoing ++ m ∷ [] })
              else none)
            (ap (length {A = M}) o),
  )

  can_move :
      (s : Server M) (p : Phase) (inc : List M) (ts : List (List M)) (out : List M)
      → s.phase ≡ p
      → s.incoming ≡ inc
      → s.handler_tasks ≡ ts
      → s.outgoing ≡ out
      → (s.phase ≡ closed) ⊎ CanMove s
  unfolding step_in serving_step draining_step with_sent with_joined join_next with_received
  can_move s closed inc ts out e i t o = inl e
  can_move s serving inc ts (m ∷ ms) e i t o =
      inr (at_phase s _ serving send e (ap (with_sent s) o))
  can_move s draining inc ts (m ∷ ms) e i t o =
      inr (at_phase s _ draining send e (ap (with_sent s) o))
  can_move s serving inc ([] ∷ ts) [] e i t o =
      inr (at_phase s _ serving (join 0) e (ap (λ us. with_joined s (join_next 0 us)) t))
  can_move s draining inc ([] ∷ ts) [] e i t o =
      inr (at_phase s _ draining (join 0) e (ap (λ us. with_joined s (join_next 0 us)) t))
  can_move s serving inc ((m ∷ w) ∷ ts) [] e i t o =
      let (u, h) = can_queue s m w ts o t in inr (at_phase s u serving (queue 0) e h)
  can_move s draining inc ((m ∷ w) ∷ ts) [] e i t o =
      let (u, h) = can_queue s m w ts o t in inr (at_phase s u draining (queue 0) e h)
  can_move s serving (m ∷ ms) [] [] e i t o =
      inr (at_phase s _ serving receive e (ap (with_received work s) i))
  can_move s serving [] [] [] e i t o = inr (
      at_phase s (record s { phase = draining }) serving end_of_input e
        (ap (λ (ms : List M). if is_empty ms then some (record s { phase = draining }) else none)
          i))
  can_move s draining inc [] [] e i t o = inr (
      at_phase s (record s { phase = closed }) draining close e
        (ap
            (λ (us : List (List M)).
              if is_empty us && is_empty s.outgoing
              then some (record s { phase = closed })
              else none)
            t
          ∙ ap (λ (ms : List M). if is_empty ms then some (record s { phase = closed }) else none)
              o))

  -- What a run from `s` to `t` in so many moves keeps.
  Runs : (M → Bool) → Server M → List Move → Server M → Type 0
  Runs f s moves t =
      (total work f t ≡ total work f s)
      × (length moves + weight work t ≤ weight work s)
      × Quiet t.phase t

  run_lem :
      (f : M → Bool) (moves : List Move) (s t : Server M)
      → Quiet s.phase s
      → run work moves s ≡ some t
      → Runs f s moves t
  unfolding run StaysQuiet Good Runs and_then
  run_lem f [] s t q h =
      subst
        (λ u.
          (total work f u ≡ total work f s) × (0 + weight work u ≤ weight work s) × Quiet u.phase u)
        (some_inj s t h) (refl, omega arith, q)
  run_lem f (move ∷ moves) s t q h =
      stepped (step work move s) (unfold step in step_in-Good work f move s s.phase refl)
        (unfold step in step_in-StaysQuiet work move s s.phase refl q)
        (λ u q' e. run_lem f moves u t q' e) h
    where
      stepped :
          (o : Option (Server M))
          → Good work f s o
          → StaysQuiet o
          → ((u : Server M) → Quiet u.phase u → run work moves u ≡ some t → Runs f u moves t)
          → and_then work (run work moves) o ≡ some t
          → Runs f s (move ∷ moves) t
      stepped none good quiet ih e = absurd (ground arith)
      stepped (some u) good quiet ih e =
          let (kept, lighter) = good in
          let (same, few, still) = ih u quiet e in (same ∙ kept, omega (arith, few, lighter), still)

  -- The loop of the server comes to its end: from any messages, whatever tokio does first, each run has at
  -- most a number of moves that the messages and their answers fix; and it can go on, or the loop has ended
  -- and every message that a task has queued was sent, as often as it was queued, and none else.
  pub run-drains :
      (messages : List M) (moves : List Move) (s : Server M)
      → run work moves (init messages) ≡ some s
      → (length moves ≤ weight work (init messages))
        × (CanMove s
            ⊎ ((s.phase ≡ closed) × ((f : M → Bool) → count f s.sent ≡ count_work work f messages)))
  unfolding init Runs
  run-drains messages moves s h = (
    omega (arith, (run_lem every moves (init messages) s tt h).1),
    elim (can_move s s.phase s.incoming s.handler_tasks s.outgoing refl refl refl refl) [
      | inl e ↦ inr (e, λ f. all_sent f e (run_lem f moves (init messages) s tt h))
      | inr m ↦ inl m
    ],
  )
    where
      all_sent :
          (f : M → Bool)
          → s.phase ≡ closed
          → Runs f (init messages) moves s
          → count f s.sent ≡ count_work work f messages
      all_sent f e (kept, few, quiet) =
          let (i, t, o) : (s.incoming ≡ []) × (s.handler_tasks ≡ []) × (s.outgoing ≡ []) =
            subst (λ p. Quiet p s) e quiet in
          omega (arith, kept, ap (count_work work f) i, ap (count_tasks f) t, ap (count f) o)
