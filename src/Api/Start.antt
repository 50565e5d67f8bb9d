-- ===== src/Api/Start.antt =====
-- The requests that start a process (`start_process_impl` and `restart_process_impl` of
-- mcproc/src/daemon/api/grpc/process_handlers.rs).
use mcproc.Prelude.{ℕ, suc, Bool, true, false, List, [], ◌∷◌, ◌++◌, Option, none, some, Text}
use mcproc.Names.Validation.{validate_process_name, validate_project_name}
use mcproc.Process.Proxy.{ProxyInfo}
use mcproc.Process.Registry.{ProcessRegistry, get_process_by_name_or_id_with_project}
use mcproc.Process.Events.{ProcessEvent}
use mcproc.Process.Lifecycle.{
  Attempt, StopResult, removed, stop_process, StartResult, process, already_exists, launch_error,
}
use mcproc.Process.Restart.{
  StartArgs, start_with, RestartResult, not_found, not_stopped, started, restart_process,
}
use mcproc.Api.Status.{
  McprocdError, process_failed_to_start, Status, mcprocd_error_to_status, Answer, ok, err,
  validate_wait_timeout,
}
use mcproc.Api.Info.{ProcessInfo, Around, create_process_info, create_failed_process_info}
use mcproc.Api.Handlers.{or_false}

pub record StartProcessRequest : Type 0 where
  pub args : StartArgs
  pub force_restart : Option Bool

-- What the answer streams: lines of a log, reports, and at the end perhaps an error.
pub data Response : Type 0 where
  log_entry : (line_number : ℕ) (content process_name : Text) → Response
  report : ProcessInfo → Response

pub record Stream : Type 0 where
  pub items : List Response
  pub error : Option Status

-- What a start found out besides the process: whether the wait for a line timed out, the lines around
-- the line that was waited for, and that line; and the error of a launch that fails.
pub record Waited : Type 0 where
  pub timeout_occurred : Bool
  pub log_context : List Text
  pub matched_line : Option Text
  pub failure : McprocdError

-- The error of a launch: a process that did not start is reported as failed. `id` and `now` are for it.
unfoldable pub failed_launch :
    Around → Text → ℕ → Text → Option Text → Option Text → McprocdError → Stream
unfolding mcprocd_error_to_status
failed_launch a id now project cmd cwd (process_failed_to_start name exit_code exit_reason stderr) =
    record {
      items =
          report (
            create_failed_process_info a id now (record {
              name = name;
              project = project;
              cmd = cmd;
              cwd = cwd;
              exit_code = exit_code;
              exit_reason = exit_reason;
              stderr = stderr;
            }))
          ∷ [];
      error = none;
    }
failed_launch a id now project cmd cwd e = record {
  items = [];
  error = some (mcprocd_error_to_status e);
}

unfoldable pub info_of : Around → Waited → ProxyInfo → ProcessInfo
info_of a w p = create_process_info a (some w.timeout_occurred) w.log_context w.matched_line p

unfoldable pub start_stream : Around → Text → ℕ → Waited → StartArgs → StartResult → Stream
unfolding failed_launch info_of
start_stream a id now w args (process p) = record {
  items = report (info_of a w p) ∷ [];
  error = none;
}
start_stream a id now w args already_exists = record {
  items = [];
  error = some Status.already_exists;
}
start_stream a id now w args launch_error =
    failed_launch a id now args.project args.cmd args.cwd w.failure

-- What the handlers use: tests for identifiers, stops, launches, the tasks of a process and the last look.
pub record Manager : Type 0 where
  pub is_uuid : Text → Bool
  pub attempt : Bool → ProxyInfo → Attempt
  pub launch_with : StartArgs → Option ProxyInfo
  pub meanwhile : ProxyInfo → ProxyInfo
  pub kill : Option Bool
  pub ports : List ℕ

unfoldable pub serve_start :
    Manager
    → Around
    → Text
    → ℕ
    → Waited
    → StartArgs
    → List ProcessEvent
    → ProcessRegistry
    → ProcessRegistry × List ProcessEvent × Answer Stream
unfolding start_stream
serve_start m a id now w args before r =
    let (r', events, result) =
      start_with m.is_uuid m.attempt m.launch_with m.meanwhile m.kill m.ports args r in
    (r', before ++ events, ok (start_stream a id now w args result))

-- Behind the stop of `force_restart`; the wait for the removal changes nothing.
unfoldable pub behind_force :
    Manager
    → Around
    → Text
    → ℕ
    → Waited
    → StartArgs
    → ProcessRegistry × List ProcessEvent × StopResult
    → ProcessRegistry × List ProcessEvent × Answer Stream
unfolding serve_start
behind_force m a id now w args (r, events, removed) = serve_start m a id now w args events r
behind_force m a id now w args (r, events, StopResult.process_not_found) =
    (r, events, err Status.failed_precondition)
behind_force m a id now w args (r, events, StopResult.stop_error) =
    (r, events, err Status.failed_precondition)

-- The process that a forced start replaces.
unfoldable pub to_replace : Manager → StartProcessRequest → ProcessRegistry → Option ProxyInfo
unfolding or_false
to_replace m req r = elim (or_false req.force_restart) [
  | true ↦ get_process_by_name_or_id_with_project m.is_uuid req.args.name (some req.args.project) r
  | false ↦ none
]

unfoldable pub serve :
    Manager
    → Around
    → Text
    → ℕ
    → Waited
    → StartProcessRequest
    → ProcessRegistry
    → ProcessRegistry × List ProcessEvent × Answer Stream
unfolding to_replace behind_force serve_start
serve m a id now w req r = elim (to_replace m req r) [
  | none ↦ serve_start m a id now w req.args [] r
  | some existing ↦
      behind_force m a id now w req.args
        (stop_process m.is_uuid m.attempt existing.id (some req.args.project) true r)
]

-- The checks in the order of the code: none if all pass.
unfoldable pub checks : StartProcessRequest → Option Status
checks req = elim (validate_wait_timeout req.args.wait_timeout) [
  | some status ↦ some status
  | none ↦ elim (validate_process_name req.args.name) [
    | some e ↦ some Status.invalid_argument
    | none ↦ elim (validate_project_name req.args.project) [
      | some e ↦ some Status.invalid_argument
      | none ↦ none
    ]
  ]
]

unfoldable pub start_process_impl :
    Manager
    → Around
    → Text
    → ℕ
    → Waited
    → StartProcessRequest
    → ProcessRegistry
    → ProcessRegistry × List ProcessEvent × Answer Stream
unfolding checks serve
start_process_impl m a id now w req r = elim (checks req) [
  | some status ↦ (r, [], err status)
  | none ↦ serve m a id now w req r
]

-- The lines of the context, numbered from 0.
unfoldable pub context_entries : Text → ℕ → List Text → List Response
context_entries name n [] = []
context_entries name n (line ∷ lines) = log_entry n line name ∷ context_entries name (suc n) lines

unfoldable pub restart_stream : Around → Text → ℕ → Waited → Text → Text → RestartResult → Stream
unfolding failed_launch info_of context_entries
restart_stream a id now w name project not_found = record {
  items = [];
  error = some Status.not_found;
}
restart_stream a id now w name project (not_stopped StopResult.process_not_found) = record {
  items = [];
  error = some Status.not_found;
}
restart_stream a id now w name project (not_stopped other) = record {
  items = [];
  error = some Status.internal;
}
restart_stream a id now w name project (started (process p)) = record {
  items = context_entries name 0 w.log_context ++ report (info_of a w p) ∷ [];
  error = none;
}
restart_stream a id now w name project (started already_exists) = record {
  items = [];
  error = some Status.already_exists;
}
restart_stream a id now w name project (started launch_error) =
    failed_launch a id now project none none w.failure

pub record RestartProcessRequest : Type 0 where
  pub name : Text
  pub project : Text
  pub wait_for_log : Option Text
  pub wait_timeout : Option ℕ

unfoldable pub restart_process_impl :
    Manager
    → Around
    → Text
    → ℕ
    → Waited
    → RestartProcessRequest
    → ProcessRegistry
    → ProcessRegistry × List ProcessEvent × Answer Stream
unfolding restart_stream
restart_process_impl m a id now w req r = elim (validate_wait_timeout req.wait_timeout) [
  | some status ↦ (r, [], err status)
  | none ↦
      let (r', events, result) =
        restart_process m.is_uuid m.attempt m.launch_with m.meanwhile m.kill m.ports req.name
          (some req.project) req.wait_for_log req.wait_timeout r in
      (r', events, ok (restart_stream a id now w req.name req.project result))
]
