-- ===== src/Process/Lifecycle/Settled.antt =====
-- An exit that the monitor has stored stays as it is
-- (`sync_process_status` and the monitor of mcproc/src/daemon/process/manager.rs).
use mcproc.Prelude.{
  ℕ, ◌≡◌, refl, inl, inr, Bool, true, false, Option, none, some, Bool-cases, ℤ, is_nat,
}
use mcproc.Process.Status.{
  ProcessStatus, starting, running, stopping, stopped, failed, to_u8, from_u8,
}
use mcproc.Process.Proxy.{ProxyInfo, get_status, set_status}
use mcproc.Process.Lifecycle.{
  exited, status_of_exit, monitor, is_running, is_starting, is_active, sync_with_kill,
  sync_with_exit, sync_by, sync_process_status,
}

get_status-set_status : (s : ProcessStatus) (p : ProxyInfo) → get_status (set_status s p) ≡ s
unfolding get_status set_status from_u8 to_u8
get_status-set_status starting p = refl
get_status-set_status running p = refl
get_status-set_status stopping p = refl
get_status-set_status stopped p = refl
get_status-set_status failed p = refl

over_unchanged :
    (kill : Option Bool) (code : Option ℤ) (p : ProxyInfo)
    → get_status p ≡ status_of_exit code
    → sync_by code kill p ≡ p
unfolding sync_by sync_with_exit sync_with_kill is_active is_starting is_running status_of_exit
over_unchanged none none p h = refl
over_unchanged (some true) none p h = rw h
over_unchanged (some false) none p h = rw h
over_unchanged kill (some code) p h = elim (Bool-cases (is_nat 0 code)) [
  | inl e ↦ rw (rw e at h)
  | inr e ↦ rw (rw e at h)
]

-- The check changes nothing behind the monitor: an exit that the monitor has stored, by a code or by a
-- signal, stays as it is, whatever `kill -0` says.
pub sync_process_status-monitor :
    (now : ℕ) (code : Option ℤ) (kill : Option Bool) (p : ProxyInfo)
    → sync_process_status kill (monitor now (exited code) p).0 ≡ (monitor now (exited code) p).0
unfolding sync_process_status monitor
sync_process_status-monitor now code kill p = over_unchanged kill code _ (
    get_status-set_status (status_of_exit code)
      (record p { exit_code = code; exit_time = some now }))
