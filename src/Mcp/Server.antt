-- ===== src/Mcp/Server.antt =====
-- The loop of the MCP server (`Server::start` of mcp-rs/src/server.rs): each message that the transport gives
-- is handled by a task of its own, which queues what it answers; the loop sends what is queued, and after
-- the end of the input it drains both. The calls that tokio interleaves are moves. The transport does not
-- fail, and a task ends.
pub mod Moves
pub mod Quiet
pub mod Drains
use mcproc.Prelude.{
  ℕ, zero, suc, Bool, true, false, not, ◌&&◌, List, [], ◌∷◌, ◌++◌, Option, none, some, ltb,
  if◌then◌else◌, length, is_empty,
}

-- OUTGOING_CHANNEL_CAPACITY
abbrev pub outgoing_channel_capacity : ℕ
outgoing_channel_capacity = 1024

-- The first loop, the second, and behind both.
pub data Phase : Type 0 where
  serving draining closed : Phase

-- What the transport will still give, what each handler task will still queue, the queue, and what was sent.
pub record Server (M : Type 0) : Type 0 where
  pub incoming : List M
  pub handler_tasks : List (List M)
  pub outgoing : List M
  pub sent : List M
  pub phase : Phase

-- What happens next: a message is received, the input ends, a task queues a message, one is sent, a task
-- is joined, and the loop ends. A task is named by its place in the list.
pub data Move : Type 0 where
  receive end_of_input send close : Move
  queue join : ℕ → Move

unfoldable pub init : {M : Type 0} → List M → Server M
init messages = record {
  incoming = messages;
  handler_tasks = [];
  outgoing = [];
  sent = [];
  phase = serving;
}

module _ {M : Type 0} where
  -- The next message of a task.
  unfoldable pub keep_task : List M → Option (M × List (List M)) → Option (M × List (List M))
  keep_task t none = none
  keep_task t (some (m, ts)) = some (m, t ∷ ts)

  unfoldable pub next_of : ℕ → List (List M) → Option (M × List (List M))
  unfolding keep_task
  next_of i [] = none
  next_of zero ([] ∷ ts) = none
  next_of zero ((m ∷ t) ∷ ts) = some (m, t ∷ ts)
  next_of (suc i) (t ∷ ts) = keep_task t (next_of i ts)

  -- A task that has ended.
  unfoldable pub keep_front : List M → Option (List (List M)) → Option (List (List M))
  keep_front t none = none
  keep_front t (some ts) = some (t ∷ ts)

  unfoldable pub join_next : ℕ → List (List M) → Option (List (List M))
  unfolding keep_front
  join_next i [] = none
  join_next zero ([] ∷ ts) = some ts
  join_next zero ((m ∷ t) ∷ ts) = none
  join_next (suc i) (t ∷ ts) = keep_front t (join_next i ts)

  unfoldable pub with_queued : Server M → Option (M × List (List M)) → Option (Server M)
  with_queued s none = none
  with_queued s (some (m, ts)) =
      if ltb (length s.outgoing) outgoing_channel_capacity
      then some (record s { handler_tasks = ts; outgoing = s.outgoing ++ m ∷ [] })
      else none

  unfoldable pub with_joined : Server M → Option (List (List M)) → Option (Server M)
  with_joined s none = none
  with_joined s (some ts) = some (record s { handler_tasks = ts })

  unfoldable pub with_sent : Server M → List M → Option (Server M)
  with_sent s [] = none
  with_sent s (m ∷ ms) = some (record s { outgoing = ms; sent = s.sent ++ m ∷ [] })

-- `work` is what a task queues for a message: notifications and then the response, if there is one.
module _ {M : Type 0} (work : M → List M) where
  unfoldable pub with_received : Server M → List M → Option (Server M)
  with_received s [] = none
  with_received s (m ∷ ms) =
      some (record s { incoming = ms; handler_tasks = s.handler_tasks ++ work m ∷ [] })

  -- The branches of `tokio::select!` in the first loop.
  unfoldable pub serving_step : Move → Server M → Option (Server M)
  unfolding with_received with_queued next_of with_joined join_next with_sent
  serving_step receive s = with_received s s.incoming
  serving_step end_of_input s =
      if is_empty s.incoming then some (record s { phase = draining }) else none
  serving_step (queue i) s = with_queued s (next_of i s.handler_tasks)
  serving_step send s = with_sent s s.outgoing
  serving_step (join i) s = with_joined s (join_next i s.handler_tasks)
  serving_step close s = none

  -- Those of the second loop, and its end.
  unfoldable pub draining_step : Move → Server M → Option (Server M)
  unfolding with_queued next_of with_joined join_next with_sent
  draining_step receive s = none
  draining_step end_of_input s = none
  draining_step (queue i) s = with_queued s (next_of i s.handler_tasks)
  draining_step send s = with_sent s s.outgoing
  draining_step (join i) s = with_joined s (join_next i s.handler_tasks)
  draining_step close s =
      if is_empty s.handler_tasks && is_empty s.outgoing
      then some (record s { phase = closed })
      else none

  unfoldable pub step_in : Phase → Move → Server M → Option (Server M)
  unfolding serving_step draining_step
  step_in serving move s = serving_step move s
  step_in draining move s = draining_step move s
  step_in closed move s = none

  unfoldable pub step : Move → Server M → Option (Server M)
  unfolding step_in
  step move s = step_in s.phase move s

  -- A sequence of moves, each of them possible.
  unfoldable pub and_then : (Server M → Option (Server M)) → Option (Server M) → Option (Server M)
  and_then f none = none
  and_then f (some s) = f s

  unfoldable pub run : List Move → Server M → Option (Server M)
  unfolding step and_then
  run [] s = some s
  run (move ∷ moves) s = and_then (run moves) (step move s)
