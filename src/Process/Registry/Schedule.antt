-- ===== src/Process/Registry/Schedule.antt =====
-- Starts and stops that run at the same time, cut at the atomic steps that they make on the registry:
-- `start_process_with_log_stream` up to `reservation.keep()`, with `ProcessNameReservation` and its
-- `Drop`, and the removal at the end of `stop_process` (mcproc/src/daemon/process/manager.rs).
use mcproc.Prelude.{
  ℕ, ◌≡◌, List, [], ◌∷◌, ◌++◌, Option, none, some, if◌then◌else◌, Text, Dict, lookup, text_eq,
}
use mcproc.Names.ProcessKey.{ProcessKey}
use mcproc.Process.Status.{ProcessStatus, running, stopped, failed}
use mcproc.Process.Proxy
use mcproc.Process.Proxy.{ProxyInfo, ProxyInfoParams, get_status, set_status}
use mcproc.Process.Registry
use mcproc.Process.Registry.{
  ProcessRegistry, add_process, try_reserve_name, release_name, take_process,
  get_process_by_name_with_project,
}

-- Where a call stands. `releasing` is the second step of `remove_process`.
pub data Task : Type 0 where
  lookup_name : ProcessKey → Task
  found : ProcessKey → Text → Task
  reserve : ProcessKey → Task
  holding : ProcessKey → Task
  registered : ProcessKey → Task
  remove_stopped : Text → Task
  releasing : ProcessKey → Task → Task
  finished : Task

-- What the launch of a reserved name comes to. An error of `parse_wait_pattern`, of `launch_process` or
-- of `child.id()` drops the reservation.
pub data Launch : Type 0 where
  launch_error : Launch
  launched : (id : Text) (pid : ℕ) (now : ℕ) → Launch

-- `match existing.get_status()`
unfoldable pub after_lookup : ProcessKey → Text → ProcessStatus → Task
after_lookup key id failed = found key id
after_lookup key id stopped = found key id
after_lookup key id running = finished
after_lookup key id _ = finished

unfoldable pub after_take : Option ProxyInfo → Task → Task
after_take none next = next
after_take (some proxy) next = releasing proxy.key next

-- The record of a launch of `key`; the parameters that the registry does not read are left empty.
abbrev pub proxy_of : ProcessKey → Text → ℕ → ℕ → ProxyInfo
proxy_of key id pid now = Proxy.new now (record {
  id = id;
  name = key.name;
  project = key.project;
  cmd = none;
  args = [];
  cwd = none;
  env = none;
  wait_for_log = none;
  wait_timeout = none;
  toolchain = none;
  pid = pid;
})

unfoldable pub on_launch : ProcessKey → Launch → ProcessRegistry → ProcessRegistry × Task
on_launch key launch_error r = (release_name key r, finished)
on_launch key (launched id pid now) r = (add_process (proxy_of key id pid now) r, registered key)

-- One atomic step of a task.
unfoldable pub advance : Launch → Task → ProcessRegistry → ProcessRegistry × Task
unfolding after_lookup after_take on_launch
advance launch (lookup_name key) r =
    elim (get_process_by_name_with_project key.name key.project r) [
      | none ↦ (r, reserve key)
      | some existing ↦ (r, after_lookup key existing.id (get_status existing))
    ]
advance launch (found key id) r =
    let (r', taken) = take_process id r in (r', after_take taken (reserve key))
advance launch (reserve key) r =
    let (r', granted) = try_reserve_name key r in (r', if granted then holding key else finished)
advance launch (holding key) r = on_launch key launch r
advance launch (registered key) r = (r, finished)
advance launch (remove_stopped id) r =
    let (r', taken) = take_process id r in (r', after_take taken finished)
advance launch (releasing key next) r = (release_name key r, next)
advance launch finished r = (r, finished)

pub record World : Type 0 where
  pub registry : ProcessRegistry
  pub tasks : List Task

-- A change of a record behind its `Arc`, made by a monitor, a stop or a synchronisation.
unfoldable pub change_status : Text → ProcessStatus → Dict ProxyInfo → Dict ProxyInfo
change_status id s [] = []
change_status id s ((j, p) ∷ m) =
    (j, if text_eq j id then set_status s p else p) ∷ change_status id s m

-- An identifier that `Uuid::new_v4` gives out is no identifier in use.
abbrev pub IsFresh : Launch → ProcessRegistry → Type 0
IsFresh launch_error r = Unit {0}
IsFresh (launched id pid now) r = lookup id r.processes ≡ none

-- Any task may move next, a call may come in, and a status may change.
pub data Step (w : World) : World → Type 0 where
  move :
      (before : List Task) (t : Task) (after : List Task) (launch : Launch)
      → w.tasks ≡ before ++ t ∷ after
      → IsFresh launch w.registry
      → Step w (record {
        registry = (advance launch t w.registry).0;
        tasks = before ++ (advance launch t w.registry).1 ∷ after;
      })
  start : (key : ProcessKey) → Step w (record w { tasks = lookup_name key ∷ w.tasks })
  stop : (id : Text) → Step w (record w { tasks = remove_stopped id ∷ w.tasks })
  change :
      (id : Text) (s : ProcessStatus)
      → Step w (record w {
        registry = record w.registry { processes = change_status id s w.registry.processes };
      })

pub data Reach (w : World) : World → Type 0 where
  here : Reach w w
  next : {u v : World} → Reach w u → Step u v → Reach w v

abbrev pub init : World
init = record { registry = Registry.new; tasks = [] }
