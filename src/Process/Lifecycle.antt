-- ===== src/Process/Lifecycle.antt =====
-- How the state of a process follows the system: the monitor task, `sync_process_status` and its copy for
-- the periodic check, and the calls to stop and to start (mcproc/src/daemon/process/manager.rs). Here one
-- call runs by itself; `Registry/Schedule` lets the calls interleave.
pub mod Settled
pub mod Calls
pub mod Acquired
pub mod Starting
use mcproc.Prelude.{
  ℕ, ◌≡◌, Bool, true, false, not, List, [], ◌∷◌, ◌++◌, Option, none, some, if◌then◌else◌, ◌||◌,
  filter, is_nat, ℤ, Text, insert,
}
use mcproc.Names.ProcessKey.{ProcessKey}
use mcproc.Process.Status.{ProcessStatus, starting, running, stopping, stopped, failed}
use mcproc.Process.Proxy.{ProxyInfo, get_status, set_status, update_detected_port}
use mcproc.Process.Registry.{
  ProcessRegistry, add_process, try_reserve_name, release_name, remove_process,
  get_process_by_name_with_project, get_process_by_name_or_id_with_project,
}
use mcproc.Process.Stop.{Stopped}
use mcproc.Process.Events.{ProcessEvent}

-- What `child.wait()` returns: the code of the exit, none for a signal, or an error.
pub data Waited : Type 0 where
  exited : Option ℤ → Waited
  wait_error : Text → Waited

unfoldable pub status_of_exit : Option ℤ → ProcessStatus
status_of_exit (some code) = if is_nat 0 code then stopped else failed
status_of_exit none = failed

-- The monitor task: the record behind it and the event that it publishes.
unfoldable pub monitor : ℕ → Waited → ProxyInfo → ProxyInfo × ProcessEvent
unfolding status_of_exit set_status
monitor now (exited code) p = (
  set_status (status_of_exit code) (record p { exit_code = code; exit_time = some now }),
  ProcessEvent.stopped p.id p.name p.project code,
)
monitor now (wait_error e) p = (set_status failed p, ProcessEvent.failed p.id p.name p.project e)

unfoldable pub is_running : ProcessStatus → Bool
is_running running = true
is_running _ = false

unfoldable pub is_starting : ProcessStatus → Bool
is_starting starting = true
is_starting _ = false

-- `matches!(status, Running | Starting)`
unfoldable pub is_active : ProcessStatus → Bool
is_active running = true
is_active starting = true
is_active _ = false

-- `kill -0`: whether it succeeded, or could not be run.
unfoldable pub sync_with_kill : Option Bool → ProxyInfo → ProxyInfo
unfolding get_status set_status is_running is_starting
sync_with_kill none p = p
sync_with_kill (some false) p =
    if is_starting (get_status p)
    then set_status failed p
    else if is_running (get_status p)
    then set_status failed p
    else p
sync_with_kill (some true) p = if is_starting (get_status p) then set_status running p else p

unfoldable pub sync_with_exit : ℤ → ProxyInfo → ProxyInfo
unfolding get_status set_status is_active
sync_with_exit code p =
    if is_active (get_status p) then set_status (if is_nat 0 code then stopped else failed) p else p

-- With the exit code that the monitor has stored, if any.
unfoldable pub sync_by : Option ℤ → Option Bool → ProxyInfo → ProxyInfo
unfolding sync_with_kill sync_with_exit
sync_by (some code) kill p = sync_with_exit code p
sync_by none kill p = sync_with_kill kill p

unfoldable pub sync_process_status : Option Bool → ProxyInfo → ProxyInfo
unfolding sync_by
sync_process_status kill p = sync_by p.exit_code kill p

-- One pass of the periodic check: the active processes, synchronised.
unfoldable pub active_processes : List ProxyInfo → List ProxyInfo
unfolding get_status is_active
active_processes = filter (λ p. is_active (get_status p))

-- How a call of `ProxyInfo::stop` under `tokio::time::timeout` ends; a call that is cut off leaves the
-- record as far as it came.
pub data Attempt : Type 0 where
  completed : Stopped → Attempt
  timed_out : ProxyInfo → Attempt

unfoldable pub last_resort : Attempt → ProxyInfo × Bool
last_resort (completed s) = (s.proxy, s.ok)
last_resort (timed_out p) = (p, false)

unfoldable pub stop_attempts : Bool → (Bool → ProxyInfo → Attempt) → Attempt → ProxyInfo × Bool
unfolding last_resort
stop_attempts force attempt (completed s) = (s.proxy, s.ok)
stop_attempts true attempt (timed_out p) = (p, false)
stop_attempts false attempt (timed_out p) = last_resort (attempt true p)

pub data StopResult : Type 0 where
  removed process_not_found stop_error : StopResult

-- A change of a record that the registry shares.
unfoldable pub store : Text → ProxyInfo → ProcessRegistry → ProcessRegistry
store id p r = record r { processes = insert id p r.processes }

unfoldable pub after_stop : Text → ProxyInfo × Bool → ProcessRegistry → ProcessRegistry × StopResult
unfolding store remove_process
after_stop id (q, true) r = ((remove_process id (store id q r)).0, removed)
after_stop id (q, false) r = (store id q r, stop_error)

-- `stop_process`; `attempt force` is a call of `stop` on the process with its time limit.
unfoldable pub stop_process :
    (Text → Bool)
    → (Bool → ProxyInfo → Attempt)
    → Text
    → Option Text
    → Bool
    → ProcessRegistry
    → ProcessRegistry × List ProcessEvent × StopResult
unfolding get_process_by_name_or_id_with_project stop_attempts after_stop
stop_process is_uuid attempt name_or_id project force r =
    elim (get_process_by_name_or_id_with_project is_uuid name_or_id project r) [
      | none ↦ (r, [], process_not_found)
      | some p ↦
          let (r', result) = after_stop p.id (stop_attempts force attempt (attempt force p)) r in
          (r', ProcessEvent.stopping p.id p.name p.project ∷ [], result)
    ]

-- `Failed | Stopped`, the states in which a name may be used again.
unfoldable pub is_over : ProcessStatus → Bool
is_over failed = true
is_over stopped = true
is_over _ = false

-- The name is made free of a process that is over; one that is not refuses it.
unfoldable pub free_name : Option ProxyInfo → ProcessRegistry → ProcessRegistry × Bool
unfolding get_status remove_process is_over
free_name none r = (r, true)
free_name (some existing) r =
    if is_over (get_status existing) then ((remove_process existing.id r).0, true) else (r, false)

unfoldable pub and_reserve : ProcessKey → ProcessRegistry × Bool → ProcessRegistry × Bool
unfolding try_reserve_name
and_reserve key (r, true) = try_reserve_name key r
and_reserve key (r, false) = (r, false)

-- From the check of the name to its reservation.
unfoldable pub acquire_name : ProcessKey → ProcessRegistry → ProcessRegistry × Bool
unfolding free_name and_reserve get_process_by_name_with_project
acquire_name key r =
    and_reserve key (free_name (get_process_by_name_with_project key.name key.project r) r)

-- From the last `sync_process_status` on: `Started` and the ports are for a process that runs.
unfoldable pub finish_start : Option Bool → List ℕ → ProxyInfo → ProxyInfo × List ProcessEvent
unfolding sync_process_status get_status is_running update_detected_port
finish_start kill ports p =
    let q = sync_process_status kill p in
    if is_running (get_status q)
    then (update_detected_port ports q, ProcessEvent.started q.id q.name q.project q.pid ∷ [])
    else (q, [])

pub data StartResult : Type 0 where
  process : ProxyInfo → StartResult
  already_exists launch_error : StartResult

-- Behind the reservation: the launch fails, which drops it, or gives the record of the process.
-- `meanwhile` is what the tasks of the process do to the record before the last look at it.
unfoldable pub launch :
    ProcessKey
    → Option ProxyInfo
    → (ProxyInfo → ProxyInfo)
    → Option Bool
    → List ℕ
    → ProcessRegistry
    → ProcessRegistry × List ProcessEvent × StartResult
unfolding release_name add_process finish_start store
launch key none meanwhile kill ports r = (release_name key r, [], launch_error)
launch key (some p) meanwhile kill ports r =
    let (q, events) = finish_start kill ports (meanwhile p) in
    (
      store p.id q (add_process p r),
      ProcessEvent.starting p.id p.name p.project ∷ events,
      process q,
    )

unfoldable pub launch_reserved :
    ProcessKey
    → Option ProxyInfo
    → (ProxyInfo → ProxyInfo)
    → Option Bool
    → List ℕ
    → ProcessRegistry × Bool
    → ProcessRegistry × List ProcessEvent × StartResult
unfolding launch
launch_reserved key launched meanwhile kill ports (r, true) =
    launch key launched meanwhile kill ports r
launch_reserved key launched meanwhile kill ports (r, false) = (r, [], already_exists)

-- `start_process_with_log_stream`
unfoldable pub start_process :
    ProcessKey
    → Option ProxyInfo
    → (ProxyInfo → ProxyInfo)
    → Option Bool
    → List ℕ
    → ProcessRegistry
    → ProcessRegistry × List ProcessEvent × StartResult
unfolding acquire_name launch_reserved
start_process key launched meanwhile kill ports r =
    launch_reserved key launched meanwhile kill ports (acquire_name key r)
