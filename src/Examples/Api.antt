-- ===== src/Examples/Api.antt =====
-- Requests about processes (mcproc/src/daemon/api/grpc/process_handlers.rs).
use mcproc.Prelude.{
  lookup, sym, ap, some_inj, ◌≡◌, ◌⊎◌, refl, Bool, true, false, [], ◌∷◌, List, Option, none, some,
  pos, codes, Text, intercalate, strip_prefix,
}
use mcproc.Names.ProcessKey
use mcproc.Process.Status.{ExitReason, proto_try_from}
use mcproc.Process.Proxy.{new, ProxyInfo}
use mcproc.Process.Registry.{ProcessRegistry}
use mcproc.Process.Registry.Schedule.{proxy_of}
use mcproc.Process.Lifecycle.{Attempt, completed}
use mcproc.Process.Restart.{StartArgs}
use mcproc.Api.Status.{Status, err, McprocdError, validate_status_filter}
use mcproc.Api.Info.{Around, extract_stderr_tail}
use mcproc.Api.Handlers.{list_processes_impl}
use mcproc.Api.Listing.{Lists, list_processes_impl-Lists}
use mcproc.Api.Start.{Manager, Waited, StartProcessRequest, start_process_impl}
use mcproc.Process.Restart.Restarts.{key_of}
use mcproc.Process.Lifecycle.Starting.{Carries}
use mcproc.Api.Started.{IsChecked, Serves, start_process_impl-Serves}

abbrev no_file : Text → Option (List (Option Text))
no_file t = none

abbrev free : ProxyInfo → Bool
free p = true

abbrev wordless : ExitReason → Text
wordless reason = []

abbrev around : Around
around = record {
  log_dir = codes "/l";
  port_free = free;
  exit_free = free;
  log_lines = no_file;
  word = wordless;
}

abbrev web : ProxyInfo
web = proxy_of (ProcessKey.new (codes "shop") (codes "web")) (codes "id-1") 4711 0

abbrev one_process : ProcessRegistry
one_process = record { processes = (codes "id-1", web) ∷ []; reserved_names = [] }

list_processes_impl-Lists_example :
    Lists around
      (some (codes "shop"))
      (some (pos 1))
      one_process
      (list_processes_impl around (some (codes "shop")) (some (pos 1)) one_process)
list_processes_impl-Lists_example =
    list_processes_impl-Lists around (some (codes "shop")) (some (pos 1)) one_process

unknown_state :
    list_processes_impl around none (some (pos 999)) one_process ≡ err Status.invalid_argument
unfolding list_processes_impl validate_status_filter proto_try_from
unknown_state = refl

abbrev any_id : Text → Bool
any_id t = true

abbrev stops_at_once : Bool → ProxyInfo → Attempt
stops_at_once force p = completed (record { proxy = p; sent = []; ok = true })

abbrev launches : StartArgs → Option ProxyInfo
launches a = some (proxy_of (ProcessKey.new a.project a.name) (codes "id-2") 4712 0)

abbrev unchanged : ProxyInfo → ProxyInfo
unchanged p = p

abbrev manager : Manager
manager = record {
  is_uuid = any_id;
  attempt = stops_at_once;
  launch_with = launches;
  meanwhile = unchanged;
  kill = some true;
  ports = [];
}

abbrev waited : Waited
waited = record {
  timeout_occurred = false;
  log_context = [];
  matched_line = none;
  failure = McprocdError.spawn_error [];
}

abbrev request : StartProcessRequest
request = record {
  args = record {
    name = codes "web";
    project = codes "shop";
    cmd = some (codes "npm start");
    args = [];
    cwd = none;
    env = some [];
    wait_for_log = none;
    wait_timeout = some 3600;
    toolchain = none;
  };
  force_restart = some true;
}

launches-Carries : (a : StartArgs) → Carries (key_of a) (launches a) unchanged
unfolding new
launches-Carries a p e =
    let proxy = proxy_of (key_of a) (codes "id-2") 4712 0 in
    (
      ap (λ (x : ProxyInfo). x.name) (sym (some_inj proxy p e)),
      ap (λ (x : ProxyInfo). x.project) (sym (some_inj proxy p e)),
    )

start_process_impl-Serves_example :
    let result = start_process_impl manager around (codes "id-3") 9 waited request one_process in
    ((IsChecked request → ⊥) × (result ≡ (one_process, [], err Status.invalid_argument)))
    ⊎ (IsChecked request × Serves manager around waited request one_process result.0 result.2)
unfolding new lookup
start_process_impl-Serves_example =
    start_process_impl-Serves manager around (codes "id-3") 9 waited request one_process
      (record { entries = (refl, refl, tt); distinct = (refl, tt) }) (λ id p e. refl)
      launches-Carries

stderr_lines :
    extract_stderr_tail (
      some
        (some (codes "1 [ERROR] a") ∷ some (codes "2 [INFO] b") ∷ some (codes "3 [ERROR] c") ∷ []))
    ≡ codes "1 [ERROR] a\n3 [ERROR] c"
unfolding extract_stderr_tail intercalate strip_prefix
stderr_lines = refl

-- A line that is not UTF-8 ends the tail.
stderr_cut :
    extract_stderr_tail (some (some (codes "1 [ERROR] a") ∷ none ∷ some (codes "3 [ERROR] c") ∷ []))
    ≡ codes "1 [ERROR] a"
unfolding extract_stderr_tail intercalate strip_prefix
stderr_cut = refl
