-- ===== src/Examples/Process.antt =====
-- Stops and the registry (mcproc/src/daemon/process).
use mathlib.Core.List.{Memᴰ}
use mcproc.Prelude.{
  suc, ◌*◌, ◌≤◌, ◌+◌, ◌≡◌, ◌≢◌, ◌↔◌, ◌⊎◌, ◌++◌, refl, true, false, [], ◌∷◌, none, some, arith,
  codes, text_eq, lookup,
}
use mcproc.Names.ProcessKey.{ProcessKey, key_eq}
use mcproc.Names.ProcessKey
use mcproc.Process.Proxy
use mcproc.Process.Proxy.{ProxyInfo}
use mcproc.Process.Stop.{Os, Stopped, delivered, esrch, stop}
use mcproc.Process.Stop.Outcome.{Outcome, Sent, stop-Outcome}
use mcproc.Process.Registry
use mcproc.Process.Registry.{
  ProcessRegistry, add_process, try_reserve_name, is_reserved, values,
  get_process_by_name_or_id_with_project, get_process_by_name_with_project, get_all_processes,
}
use mcproc.Process.Registry.Lookup.{lookup_sound, lookup_complete}
use mcproc.Process.Registry.Schedule.{
  World, Reach, here, next, move, start, Launch, launched, launch_error, advance, init, proxy_of,
  finished, Task, lookup_name, reserve, holding, registered,
}
use mcproc.Process.Registry.Ownership.{owned_count, registered_count}
use mcproc.Process.Registry.Exclusion.{exclusive_name, names_released}

abbrev web : ProcessKey
web = ProcessKey.new (codes "shop") (codes "web")

abbrev server : ProxyInfo
server = proxy_of web (codes "id-1") 4711 0

-- A group that ends 350 ms after SIGTERM.
abbrev obliging : Os
obliging = record {
  term = delivered;
  term_probe = delivered;
  elapsed = λ k. 100 * k;
  probe = elim [ suc (suc (suc (suc n))) ↦ esrch | _ ↦ delivered ];
  kill = delivered;
  kill_elapsed = λ k. 100 * k;
  kill_probe = λ k. esrch;
  ps = λ k. none;
  now = 7;
}

stop-Outcome_example :
    (s : Stopped) × (stop 400 obliging false 30000 server ≡ some s)
    × Outcome obliging server s
    × Sent false obliging 30000 s.sent
stop-Outcome_example =
    stop-Outcome 400 obliging false 30000 server (λ k. omega arith) (λ k. omega arith) (omega arith)
      (omega arith)

-- A start of `shop/web` on its own, step by step.
abbrev moved : Launch → Task → World → World
moved launch t w = record {
  registry = (advance launch t w.registry).0;
  tasks = [] ++ (advance launch t w.registry).1 ∷ [];
}

abbrev called : World
called = record init { tasks = lookup_name web ∷ [] }

abbrev launched_web : Launch
launched_web = launched (codes "id-1") 4711 0

abbrev kept : World
kept = moved launch_error (registered web) (
    moved launched_web (holding web)
      (moved launch_error (reserve web) (moved launch_error (lookup_name web) called)))

kept-Reach : Reach init kept
unfolding advance Registry.new get_process_by_name_with_project try_reserve_name is_reserved lookup
    add_process
kept-Reach =
    next
      (next
        (next (next (next here (start web)) (move [] (lookup_name web) [] launch_error refl tt))
          (move [] (reserve web) [] launch_error refl tt))
        (move [] (holding web) [] launched_web refl refl))
      (move [] (registered web) [] launch_error refl tt)

exclusive_name_example :
    owned_count web kept.tasks + registered_count web kept.registry.processes ≤ 1
exclusive_name_example = exclusive_name kept web kept-Reach

kept_over : (t : Task) → Memᴰ t kept.tasks → t ≡ finished
unfolding advance
kept_over t (Memᴰ.head e) = e
kept_over t (Memᴰ.tail m) = elim m [ ]

names_released_example :
    (is_reserved web kept.registry ≡ true) ↔ (registered_count web kept.registry.processes ≡ 1)
names_released_example = names_released kept web kept-Reach kept_over

-- The registry with the one process.
abbrev one : ProcessRegistry
one = record { processes = (codes "id-1", server) ∷ []; reserved_names = web ∷ [] }

lookup_sound_example :
    (server.project ≡ codes "shop") × ((server.name ≡ codes "web") ⊎ (server.id ≡ codes "web"))
unfolding get_process_by_name_or_id_with_project text_eq Proxy.new
lookup_sound_example =
    lookup_sound (λ t. false) one (codes "web") (codes "shop") server (refl, tt) refl

lookup_complete_example : (server.name ≢ codes "api") × (server.id ≢ codes "api")
unfolding get_process_by_name_or_id_with_project text_eq lookup get_all_processes Proxy.new
lookup_complete_example =
    lookup_complete (λ t. false) one (codes "api") (codes "shop") server (refl, tt) (refl, tt) refl
      (Memᴰ.head refl) refl
