-- ===== src/Process/Restart.antt =====
-- A restart: a stop and a start with what the process was started with
-- (`restart_process_with_log_stream` of mcproc/src/daemon/process/manager.rs).
pub mod Restarts
use mcproc.Prelude.{ℕ, Bool, false, List, [], ◌∷◌, ◌++◌, Option, none, some, Text, Dict}
use mcproc.Names.ProcessKey
use mcproc.Process.Proxy.{ProxyInfo}
use mcproc.Process.Registry.{ProcessRegistry, get_process_by_name_or_id_with_project}
use mcproc.Process.Events.{ProcessEvent}
use mcproc.Process.Lifecycle.{
  Attempt, StopResult, removed, process_not_found, stop_error, stop_process, StartResult,
  start_process,
}

-- The arguments of `start_process_with_log_stream`.
pub record StartArgs : Type 0 where
  pub name : Text
  pub project : Text
  pub cmd : Option Text
  pub args : List Text
  pub cwd : Option Text
  pub env : Option (Dict Text)
  pub wait_for_log : Option Text
  pub wait_timeout : Option ℕ
  pub toolchain : Option Text

-- `override.or(saved)`
unfoldable pub or_saved : {A : Type 0} → Option A → Option A → Option A
or_saved none saved = saved
or_saved (some a) saved = some a

unfoldable pub restart_args : Option Text → Option ℕ → ProxyInfo → StartArgs
unfolding or_saved
restart_args log timeout p = record {
  name = p.name;
  project = p.project;
  cmd = p.cmd;
  args = p.args;
  cwd = p.cwd;
  env = p.env;
  wait_for_log = or_saved log p.wait_for_log;
  wait_timeout = or_saved timeout p.wait_timeout;
  toolchain = p.toolchain;
}

pub data RestartResult : Type 0 where
  not_found : RestartResult
  not_stopped : StopResult → RestartResult
  started : StartResult → RestartResult

-- Tests for identifiers, stops of processes, launches, what the tasks of the new process do to its record,
-- and the answers of the system to the last look at it.
module _ (is_uuid : Text → Bool) (attempt : Bool → ProxyInfo → Attempt)
    (launch_with : StartArgs → Option ProxyInfo) (meanwhile : ProxyInfo → ProxyInfo)
    (kill : Option Bool) (ports : List ℕ) where
  -- From `start_process_with_log_stream` on.
  unfoldable pub start_with :
      StartArgs → ProcessRegistry → ProcessRegistry × List ProcessEvent × StartResult
  start_with a r =
      start_process (ProcessKey.new a.project a.name) (launch_with a) meanwhile kill ports r

  -- Behind the stop; the wait for the removal changes nothing.
  unfoldable pub start_again :
      StartArgs
      → ProcessRegistry × List ProcessEvent × StopResult
      → ProcessRegistry × List ProcessEvent × RestartResult
  unfolding start_with
  start_again a (r, events, process_not_found) = (r, events, not_stopped process_not_found)
  start_again a (r, events, stop_error) = (r, events, not_stopped stop_error)
  start_again a (r, events, removed) =
      let (r', later, result) = start_with a r in (r', events ++ later, started result)

  unfoldable pub restart_process :
      Text
      → Option Text
      → Option Text
      → Option ℕ
      → ProcessRegistry
      → ProcessRegistry × List ProcessEvent × RestartResult
  unfolding start_again restart_args
  restart_process name_or_id project log timeout r =
      elim (get_process_by_name_or_id_with_project is_uuid name_or_id project r) [
        | none ↦ (r, [], not_found)
        | some p ↦
            start_again (restart_args log timeout p)
              (stop_process is_uuid attempt name_or_id (some p.project) false r)
      ]
