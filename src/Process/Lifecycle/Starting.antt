-- ===== src/Process/Lifecycle/Starting.antt =====
-- What a call to start leaves in the registry (`start_process_with_log_stream` of
-- mcproc/src/daemon/process/manager.rs, when no other call runs at the same time).
use mcproc.Prelude.{
  ℕ, ℤ, ◌≡◌, ◌≢◌, refl, ◌∙◌, ◌⊎◌, inl, inr, Bool, true, false, List, Option, none, some, Bool-cases,
  arith, Text, insert, text_eq_refl, text_eq_iff, lookup-insert, if◌then◌else◌,
}
use mcproc.Names.ProcessKey.{ProcessKey, key_eq_iff}
use mcproc.Process.Proxy.{ProxyInfo, get_status, set_status, update_detected_port}
use mcproc.Process.Registry.{
  ProcessRegistry, add_process, is_reserved, release_name, get_process_by_id,
}
use mcproc.Process.Registry.Ownership.{is_reserved-release}
use mcproc.Process.Registry.Kept.{IsKept}
use mcproc.Process.Lifecycle.{
  store, StartResult, process, already_exists, launch_error, acquire_name, launch, launch_reserved,
  start_process, finish_start, sync_process_status, sync_by, sync_with_exit, sync_with_kill,
  is_running, is_starting, is_active,
}
use mcproc.Process.Lifecycle.Acquired.{
  holder, IsFree, without, IsHeld, Acquires, acquire_name-Acquires,
}

-- What a start leaves. A process was launched, and it is registered, with the project and the name of the
-- key, which it holds; or the launch failed, and the name is free. In both cases the name had been free, and
-- the process that had it is gone, and no other. Or the start was refused and nothing is changed: a process of
-- the name is not over, or none has the name, which is reserved.
abbrev pub Starts :
    ProcessKey → Option ProxyInfo → ProcessRegistry → ProcessRegistry → StartResult → Type 0
Starts key launched r r' (process q) =
    (p : ProxyInfo) × (launched ≡ some p)
    × (get_process_by_id p.id r' ≡ some q)
    × (q.name ≡ key.name)
    × (q.project ≡ key.project)
    × (is_reserved key r' ≡ true)
    × IsFree key r
    × ((id : Text) → id ≢ p.id → get_process_by_id id r' ≡ without (holder key r) r id)
Starts key launched r r' launch_error =
    (launched ≡ none)
    × (is_reserved key r' ≡ false)
    × IsFree key r
    × ((id : Text) → get_process_by_id id r' ≡ without (holder key r) r id)
Starts key launched r r' already_exists =
    (r' ≡ r) × (IsHeld key r ⊎ ((holder key r ≡ none) × (is_reserved key r ≡ true)))

-- The record of a process that is launched has the project and the name that were asked for, behind what its
-- tasks have done to it too.
abbrev pub Carries : ProcessKey → Option ProxyInfo → (ProxyInfo → ProxyInfo) → Type 0
Carries key launched meanwhile =
    (p : ProxyInfo)
    → launched ≡ some p
    → ((meanwhile p).name ≡ key.name) × ((meanwhile p).project ≡ key.project)

-- The last look at a process keeps its name and its project.
SameNames : ProxyInfo → ProxyInfo → Type 0
SameNames p q = (q.name ≡ p.name) × (q.project ≡ p.project)

branch :
    (b : Bool) (p q q' : ProxyInfo)
    → SameNames p q
    → SameNames p q'
    → SameNames p (if b then q else q')
branch true p q q' h h' = h
branch false p q q' h h' = h'

sync_by-SameNames :
    (code : Option ℤ) (kill : Option Bool) (p : ProxyInfo) → SameNames p (sync_by code kill p)
unfolding sync_by sync_with_exit sync_with_kill set_status SameNames
sync_by-SameNames (some code) kill p =
    branch (is_active (get_status p)) p _ p (refl, refl) (refl, refl)
sync_by-SameNames none none p = (refl, refl)
sync_by-SameNames none (some true) p =
    branch (is_starting (get_status p)) p _ p (refl, refl) (refl, refl)
sync_by-SameNames none (some false) p =
    branch (is_starting (get_status p)) p _ _ (refl, refl)
      (branch (is_running (get_status p)) p _ p (refl, refl) (refl, refl))

finish_start-SameNames :
    (kill : Option Bool) (ports : List ℕ) (p : ProxyInfo)
    → SameNames p (finish_start kill ports p).0
unfolding finish_start sync_process_status update_detected_port SameNames
finish_start-SameNames kill ports p =
    let q = sync_by p.exit_code kill p in
    let same = sync_by-SameNames p.exit_code kill p in
    elim (Bool-cases (is_running (get_status q))) [
      | inl e ↦ rw e (same.0, same.1)
      | inr e ↦ rw e same
    ]

launch-Starts :
    (key : ProcessKey) (launched : Option ProxyInfo) (meanwhile : ProxyInfo → ProxyInfo)
    (kill : Option Bool) (ports : List ℕ) (r r' : ProcessRegistry)
    → Carries key launched meanwhile
    → is_reserved key r' ≡ true
    → IsFree key r
    → ((id : Text) → get_process_by_id id r' ≡ without (holder key r) r id)
    → let result = launch key launched meanwhile kill ports r' in
      Starts key launched r result.0 result.2
unfolding launch store add_process get_process_by_id is_reserved SameNames
launch-Starts key none meanwhile kill ports r r' carries h free gone = (
  refl,
  unfold is_reserved in rw (is_reserved-release key key r', (key_eq_iff key key).1 refl) refl,
  free,
  λ id. unfold release_name in gone id,
)
launch-Starts key (some p) meanwhile kill ports r r' carries h free gone =
    let q = (finish_start kill ports (meanwhile p)).0 in
    let (name, project) = finish_start-SameNames kill ports (meanwhile p) in
    let (named, of_project) = carries p refl in
    (
      p,
      refl,
      rw (lookup-insert p.id p.id q (insert p.id p r'.processes), text_eq_refl p.id) refl,
      name ∙ named,
      project ∙ of_project,
      h,
      free,
      λ id other. rw (lookup-insert p.id id q (insert p.id p r'.processes)) (
          rw (lookup-insert p.id id p r'.processes)
            (ground (arith, text_eq_iff p.id id, other, gone id))),
    )

launch_reserved-Starts :
    (key : ProcessKey) (launched : Option ProxyInfo) (meanwhile : ProxyInfo → ProxyInfo)
    (kill : Option Bool) (ports : List ℕ) (r r' : ProcessRegistry) (ok : Bool)
    → Carries key launched meanwhile
    → Acquires key r r' ok
    → let result = launch_reserved key launched meanwhile kill ports (r', ok) in
      Starts key launched r result.0 result.2
unfolding launch_reserved Acquires
launch_reserved-Starts key launched meanwhile kill ports r r' true carries (h, free, gone) =
    launch-Starts key launched meanwhile kill ports r r' carries h free gone
launch_reserved-Starts key launched meanwhile kill ports r r' false carries why = why

pub start_process-Starts :
    (key : ProcessKey) (launched : Option ProxyInfo) (meanwhile : ProxyInfo → ProxyInfo)
    (kill : Option Bool) (ports : List ℕ) (r : ProcessRegistry)
    → IsKept r
    → Carries key launched meanwhile
    → let result = start_process key launched meanwhile kill ports r in
      Starts key launched r result.0 result.2
unfolding start_process
start_process-Starts key launched meanwhile kill ports r kept carries =
    launch_reserved-Starts key launched meanwhile kill ports r (acquire_name key r).0
      (acquire_name key r).1 carries (acquire_name-Acquires key r kept)
