-- ===== src/Api/Handlers.antt =====
-- The requests about processes that are there (mcproc/src/daemon/api/grpc/process_handlers.rs,
-- mcproc/src/daemon/api/grpc/service.rs).
use mcproc.Prelude.{
  ℕ, ◌-◌, ◌/◌, Bool, true, false, List, [], map, filter, Option, none, some, ℤ, is_nat, Text, codes,
  text_eq, length,
}
use mcproc.Process.Status.{ProcessStatus, to_proto, proto_number}
use mcproc.Process.Proxy.{ProxyInfo, get_status}
use mcproc.Process.Registry.{
  ProcessRegistry, get_all_processes, get_process_by_name_or_id_with_project,
}
use mcproc.Process.Events.{ProcessEvent}
use mcproc.Process.Lifecycle.{
  Attempt, StopResult, removed, process_not_found, stop_error, stop_process,
}
use mcproc.Process.Cleaning.{Dirs, clean_project, clean_all_projects}
use mcproc.Api.Status.{Status, Answer, ok, err, validate_status_filter}
use mcproc.Api.Info.{ProcessInfo, Around, create_process_info}

unfoldable pub matches_status_filter : ProcessStatus → ℤ → Bool
unfolding to_proto proto_number
matches_status_filter status filter = is_nat (proto_number (to_proto status)) filter

-- The two calls of `retain`.
unfoldable pub in_project : Option Text → List ProxyInfo → List ProxyInfo
in_project none ps = ps
in_project (some project) ps = filter (λ p. text_eq p.project project) ps

unfoldable pub with_status : ℤ → List ProxyInfo → List ProxyInfo
unfolding matches_status_filter get_status
with_status n ps = filter (λ p. matches_status_filter (get_status p) n) ps

unfoldable pub plain_info : Around → ProxyInfo → ProcessInfo
plain_info a p = create_process_info a none [] none p

unfoldable pub list_processes_impl :
    Around → Option Text → Option ℤ → ProcessRegistry → Answer (List ProcessInfo)
unfolding in_project with_status plain_info
list_processes_impl a project none r =
    ok (map (plain_info a) (in_project project (get_all_processes r)))
list_processes_impl a project (some n) r = elim (validate_status_filter n) [
  | some status ↦ err status
  | none ↦ ok (map (plain_info a) (with_status n (in_project project (get_all_processes r))))
]

unfoldable pub get_process_impl :
    Around → (Text → Bool) → Text → Text → ProcessRegistry → Answer ProcessInfo
unfolding plain_info
get_process_impl a is_uuid name project r =
    elim (get_process_by_name_or_id_with_project is_uuid name (some project) r) [
      | some p ↦ ok (plain_info a p)
      | none ↦ err Status.not_found
    ]

-- Whether the answer to a stop says `success`.
unfoldable pub is_success : StopResult → Bool
is_success removed = true
is_success process_not_found = false
is_success stop_error = false

unfoldable pub or_false : Option Bool → Bool
or_false none = false
or_false (some b) = b

unfoldable pub stop_process_impl :
    (Text → Bool)
    → (Bool → ProxyInfo → Attempt)
    → Text
    → Text
    → Option Bool
    → ProcessRegistry
    → ProcessRegistry × List ProcessEvent × Bool
unfolding is_success or_false
stop_process_impl is_uuid attempt name project force r =
    elim (get_process_by_name_or_id_with_project is_uuid name (some project) r) [
      | none ↦ (r, [], false)
      | some p ↦
          let (r', events, result) =
            stop_process is_uuid attempt name (some project) (or_false force) r in
          (r', events, is_success result)
    ]

-- One project of the answer to a cleaning; the message for one project has its fields too.
pub record ProjectCleanResult : Type 0 where
  pub project : Text
  pub processes_stopped : ℕ
  pub logs_deleted : ℕ
  pub stopped_process_names : List Text
  pub deleted_log_files : List Text

unfoldable pub clean_result : Text × (List Text × List Text) → ProjectCleanResult
clean_result (project, (stopped, deleted)) = record {
  project = project;
  processes_stopped = length stopped;
  logs_deleted = length deleted;
  stopped_process_names = stopped;
  deleted_log_files = deleted;
}

pub record CleanProjectRequest : Type 0 where
  pub project : Option Text
  pub all_projects : Bool
  pub force : Bool

-- The fields for one project, or the results for all of them.
pub data CleanProjectResponse : Type 0 where
  one_project : ProjectCleanResult → CleanProjectResponse
  project_results : List ProjectCleanResult → CleanProjectResponse

unfoldable pub or_default : Option Text → Text
or_default none = codes "default"
or_default (some project) = project

module _ (is_uuid : Text → Bool) (attempt : Bool → ProxyInfo → Attempt) (permits : Text → Bool)
    (log_dir : Text) (listed : List Text) where
  unfoldable pub clean_project_impl :
      CleanProjectRequest
      → ProcessRegistry × Dirs
      → (ProcessRegistry × Dirs) × List ProcessEvent × CleanProjectResponse
  unfolding clean_result or_default
  clean_project_impl req s = elim req.all_projects [
    | true ↦
        let (s', events, results) =
          clean_all_projects is_uuid attempt permits log_dir req.force listed s in
        (s', events, project_results (map clean_result results))
    | false ↦
        let (s', events, result) =
          clean_project is_uuid attempt permits log_dir (or_default req.project) req.force s in
        (s', events, one_project (clean_result (or_default req.project, result)))
  ]

-- `(now - start_time).num_seconds().max(0)`, of times in milliseconds.
unfoldable pub uptime_seconds : ℕ → ℕ → ℕ
uptime_seconds now start_time = (now - start_time) / 1000

pub record GetDaemonStatusResponse : Type 0 where
  pub version : Text
  pub pid : ℕ
  pub start_time : ℕ
  pub uptime_seconds : ℕ
  pub data_dir : Text
  pub active_processes : ℕ

unfoldable pub get_daemon_status_impl :
    Text → ℕ → Text → ℕ → ℕ → ProcessRegistry → GetDaemonStatusResponse
unfolding uptime_seconds
get_daemon_status_impl version pid data_dir start_time now r = record {
  version = version;
  pid = pid;
  start_time = start_time;
  uptime_seconds = uptime_seconds now start_time;
  data_dir = data_dir;
  active_processes = length (get_all_processes r);
}
