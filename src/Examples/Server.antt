-- ===== src/Examples/Server.antt =====
-- A run of the loop of the MCP server (mcp-rs/src/server.rs).
use mcproc.Prelude.{ℕ, ◌+◌, ◌≤◌, ◌≡◌, ◌⊎◌, refl, Bool, [], ◌∷◌, List, some, length}
use mcproc.Mcp.Server.{Server, Move, receive, send, queue, serving, closed, init, run}
use mcproc.Mcp.Server.Moves.{count, count_work, weight}
use mcproc.Mcp.Server.Drains.{CanMove, run-drains}

-- A task queues a notification and a response.
abbrev answers : ℕ → List ℕ
answers m = m ∷ (m + 10) ∷ []

abbrev two_messages : List ℕ
two_messages = 1 ∷ 2 ∷ []

-- The second message is answered first.
abbrev crossed : List Move
crossed = receive ∷ receive ∷ queue 1 ∷ queue 0 ∷ send ∷ []

abbrev half_way : Server ℕ
half_way = record {
  incoming = [];
  handler_tasks = (11 ∷ []) ∷ (12 ∷ []) ∷ [];
  outgoing = 1 ∷ [];
  sent = 2 ∷ [];
  phase = serving;
}

crossed-run : run answers crossed (init two_messages) ≡ some half_way
unfolding run init
crossed-run = refl

run-drains_example :
    (length crossed ≤ weight answers (init two_messages))
    × (CanMove answers half_way
        ⊎ ((half_way.phase ≡ closed)
            × ((f : ℕ → Bool) → count f half_way.sent ≡ count_work answers f two_messages)))
run-drains_example = run-drains answers two_messages crossed half_way crossed-run
