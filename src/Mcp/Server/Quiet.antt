-- ===== src/Mcp/Server/Quiet.antt =====
-- What is empty in each phase of the loop of the MCP server (mcp-rs/src/server.rs).
use mcproc.Prelude.{
  ◌≡◌, refl, sym, ◌∙◌, subst, inl, inr, ◌&&◌, List, [], ◌∷◌, ◌++◌, Option, none, some, ltb,
  if◌then◌else◌, length, is_empty, Bool-cases,
}
use mcproc.Mcp.Server.{
  outgoing_channel_capacity, Phase, serving, draining, closed, Server, Move, receive, end_of_input,
  send, close, queue, join, next_of, join_next, with_queued, with_joined, with_sent, with_received,
  serving_step, draining_step, step_in,
}

module _ {M : Type 0} where
  -- What is empty behind each loop.
  abbrev pub Quiet : Phase → Server M → Type 0
  Quiet serving s = Unit
  Quiet draining s = (s.incoming ≡ [])
  Quiet closed s = (s.incoming ≡ []) × (s.handler_tasks ≡ []) × (s.outgoing ≡ [])

  unfoldable pub StaysQuiet : Option (Server M) → Type 0
  StaysQuiet none = Unit
  StaysQuiet (some t) = Quiet t.phase t

module _ {M : Type 0} (work : M → List M) where
  -- A move of a task, of the queue or of the list of tasks leaves the input and the phase alone.
  Aside : Server M → Option (Server M) → Type 0
  Aside s none = Unit
  Aside s (some t) = (t.phase ≡ s.phase) × (t.incoming ≡ s.incoming)

  queued-Aside : (s : Server M) (o : Option (M × List (List M))) → Aside s (with_queued s o)
  unfolding Aside with_queued
  queued-Aside s none = tt
  queued-Aside s (some (m, ts)) =
      elim (Bool-cases (ltb (length s.outgoing) outgoing_channel_capacity)) [
        | inl room ↦ rw room (refl, refl)
        | inr full ↦ rw full tt
      ]

  joined-Aside : (s : Server M) (o : Option (List (List M))) → Aside s (with_joined s o)
  unfolding Aside with_joined
  joined-Aside s none = tt
  joined-Aside s (some ts) = (refl, refl)

  sent-Aside : (s : Server M) (ms : List M) → Aside s (with_sent s ms)
  unfolding Aside with_sent
  sent-Aside s [] = tt
  sent-Aside s (m ∷ ms) = (refl, refl)

  Aside-serving :
      (s : Server M) (o : Option (Server M)) → s.phase ≡ serving → Aside s o → StaysQuiet o
  unfolding Aside StaysQuiet
  Aside-serving s none e h = tt
  Aside-serving s (some t) e (p, i) = subst (λ q. Quiet q t) (sym (p ∙ e)) tt

  Aside-draining :
      (s : Server M) (o : Option (Server M))
      → s.phase ≡ draining
      → s.incoming ≡ []
      → Aside s o
      → StaysQuiet o
  unfolding Aside StaysQuiet
  Aside-draining s none e n h = tt
  Aside-draining s (some t) e n (p, i) = subst (λ q. Quiet q t) (sym (p ∙ e)) (i ∙ n)

  serving-StaysQuiet :
      (move : Move) (s : Server M) → s.phase ≡ serving → StaysQuiet (serving_step work move s)
  unfolding serving_step
  serving-StaysQuiet receive s e = received s.incoming
    where
      received : (ms : List M) → StaysQuiet (with_received work s ms)
      received [] = unfold with_received in unfold StaysQuiet in tt
      received (m ∷ ms) =
          unfold with_received in
          unfold StaysQuiet in
          subst
            (λ q.
              Quiet q (record s { incoming = ms; handler_tasks = s.handler_tasks ++ work m ∷ [] }))
            (sym e) tt
  serving-StaysQuiet end_of_input s e = ended s.incoming refl
    where
      ended :
          (ms : List M)
          → s.incoming ≡ ms
          → StaysQuiet (if is_empty s.incoming then some (record s { phase = draining }) else none)
      ended [] n = rw n (unfold StaysQuiet in refl)
      ended (m ∷ ms) n = rw n (unfold StaysQuiet in tt)
  serving-StaysQuiet (queue i) s e =
      Aside-serving s _ e (queued-Aside s (next_of i s.handler_tasks))
  serving-StaysQuiet send s e = Aside-serving s _ e (sent-Aside s s.outgoing)
  serving-StaysQuiet (join i) s e =
      Aside-serving s _ e (joined-Aside s (join_next i s.handler_tasks))
  serving-StaysQuiet close s e = unfold StaysQuiet in tt

  draining-StaysQuiet :
      (move : Move) (s : Server M)
      → s.phase ≡ draining
      → s.incoming ≡ []
      → StaysQuiet (draining_step work move s)
  unfolding draining_step
  draining-StaysQuiet receive s e n = unfold StaysQuiet in tt
  draining-StaysQuiet end_of_input s e n = unfold StaysQuiet in tt
  draining-StaysQuiet (queue i) s e n =
      Aside-draining s _ e n (queued-Aside s (next_of i s.handler_tasks))
  draining-StaysQuiet send s e n = Aside-draining s _ e n (sent-Aside s s.outgoing)
  draining-StaysQuiet (join i) s e n =
      Aside-draining s _ e n (joined-Aside s (join_next i s.handler_tasks))
  draining-StaysQuiet close s e n = closes s.handler_tasks s.outgoing refl refl
    where
      closes :
          (ts : List (List M)) (ms : List M)
          → s.handler_tasks ≡ ts
          → s.outgoing ≡ ms
          → StaysQuiet (
              if is_empty s.handler_tasks && is_empty s.outgoing
              then some (record s { phase = closed })
              else none)
      closes [] [] a b = rw (a, b) (unfold StaysQuiet in (n, refl, refl))
      closes [] (m ∷ ms) a b = rw (a, b) (unfold StaysQuiet in tt)
      closes (t ∷ ts) ms a b = rw a (unfold StaysQuiet in tt)

  pub step_in-StaysQuiet :
      (move : Move) (s : Server M) (p : Phase)
      → s.phase ≡ p
      → Quiet p s
      → StaysQuiet (step_in work p move s)
  unfolding step_in
  step_in-StaysQuiet move s serving e q = serving-StaysQuiet move s e
  step_in-StaysQuiet move s draining e q = draining-StaysQuiet move s e q
  step_in-StaysQuiet move s closed e q = unfold StaysQuiet in tt
