-- ===== src/Examples/Calls.antt =====
-- Calls to start and to stop, and the state behind them (mcproc/src/daemon/process).
use mcproc.Prelude.{refl, ◌↔◌, ◌≡◌, ◌⊎◌, true, false, [], ◌∷◌, none, some, pos, codes}
use mcproc.Names.ProcessKey.{ProcessKey}
use mcproc.Names.ProcessKey
use mcproc.Process.Status.{
  running, to_u8, from_u8, to_proto, proto_number, proto_try_from, convert_process_status,
}
use mcproc.Process.Codes.{status_codes}
use mcproc.Process.Proxy.{new, ProxyInfo}
use mcproc.Process.Registry.{ProcessRegistry, get_process_by_name_or_id_with_project}
use mcproc.Process.Registry.Schedule.{proxy_of}
use mcproc.Process.Events.{StreamFilter, log, matches}
use mcproc.Process.Events.Filter.{IsSubscribed, matches-IsSubscribed}
use mcproc.Process.Launcher.Quoting.{words, bare}
use mcproc.Process.Lifecycle.{
  Attempt, completed, exited, monitor, sync_process_status, stop_process, process_not_found,
}
use mcproc.Process.Lifecycle.Settled.{sync_process_status-monitor}
use mcproc.Process.Lifecycle.Calls.{Stops, stop_process-Stops}
use mcproc.Process.Events

abbrev api : ProcessKey
api = ProcessKey.new (codes "shop") (codes "api")

abbrev api_server : ProxyInfo
api_server = proxy_of api (codes "id-2") 4712 0

abbrev with_api : ProcessRegistry
with_api = record { processes = (codes "id-2", api_server) ∷ []; reserved_names = api ∷ [] }

abbrev stops_well : ProxyInfo → Attempt
stops_well p = completed (record { proxy = p; sent = []; ok = true })

status_codes_example :
    (from_u8 (to_u8 running) ≡ running)
    × (convert_process_status running ≡ to_u8 running)
    × (proto_number (to_proto running) ≡ to_u8 running)
    × (proto_try_from (pos (to_u8 running)) ≡ some (to_proto running))
status_codes_example = status_codes running

sync_process_status-monitor_example :
    sync_process_status (some false) (monitor 9 (exited (some (pos 0))) api_server).0
    ≡ (monitor 9 (exited (some (pos 0))) api_server).0
sync_process_status-monitor_example =
    sync_process_status-monitor 9 (some (pos 0)) (some false) api_server

stop_process-Stops_example :
    let result =
      stop_process (λ t. false) (λ force. stops_well) (codes "api") none false with_api in
    let found = get_process_by_name_or_id_with_project (λ t. false) (codes "api") none with_api in
    ((found ≡ none) × (result ≡ (with_api, [], process_not_found)))
    ⊎ ((p : ProxyInfo) × (found ≡ some p)
        × (result.1 ≡ Events.stopping p.id p.name p.project ∷ [])
        × Stops (λ force. stops_well) false p with_api result.0 result.2)
stop_process-Stops_example =
    stop_process-Stops (λ t. false) (λ force. stops_well) (codes "api") none false with_api

-- The process of the name is over, and a start replaces it.
abbrev over_api : ProcessRegistry
over_api = record {
  processes = (codes "id-2", record api_server { status = 4 }) ∷ [];
  reserved_names = api ∷ [];
}

abbrev api_again : ProxyInfo
api_again = proxy_of api (codes "id-3") 4713 0

-- Without quotes, `$HOME` is more than a word.
unquoted : words bare (codes "echo $HOME") ≡ none
unfolding words
unquoted = refl

abbrev web_only : StreamFilter
web_only = record {
  project = some (codes "shop");
  process_names = codes "web" ∷ [];
  include_events = false;
}

matches-IsSubscribed_example :
    (matches web_only (log (codes "web") (codes "shop") []) ≡ true)
    ↔ IsSubscribed web_only (log (codes "web") (codes "shop") [])
matches-IsSubscribed_example = matches-IsSubscribed web_only (log (codes "web") (codes "shop") [])
