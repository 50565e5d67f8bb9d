-- ===== src/Process/Stop.antt =====
-- `ProxyInfo::stop` of mcproc/src/daemon/process/proxy.rs: SIGTERM to the process group, polling, SIGKILL
-- and polling again. `killpg`, `ps` and the clock belong to the operating system: what they answer at
-- each call is a record of functions, and the proofs stand in the modules below.
pub mod Poll
pub mod Outcome
use mcproc.Prelude.{
  ℕ, zero, suc, ◌+◌, ◌*◌, ◌≤◌, Bool, true, false, not, ◌&&◌, ◌==◌, any, Text, parse_nat, u32_max,
  split_whitespace, List, [], ◌∷◌, ◌++◌, Option, none, some, ltb, if◌then◌else◌,
}
use mcproc.Process.Status.{stopping, stopped}
use mcproc.Process.Proxy.{ProxyInfo, set_status}

-- What `killpg` returns; `denied` is any error but ESRCH.
pub data KillResult : Type 0 where
  delivered esrch denied : KillResult

pub data Signal : Type 0 where
  sigterm sigkill : Signal

-- `send_signal_to_group(..).is_ok()`
unfoldable pub send_signal_to_group : KillResult → Bool
send_signal_to_group delivered = true
send_signal_to_group esrch = true
send_signal_to_group denied = false

-- `is_process_group_alive`, by what `killpg(pgid, None)` returns
unfoldable pub is_process_group_alive : KillResult → Bool
is_process_group_alive delivered = true
is_process_group_alive esrch = false
is_process_group_alive denied = true

-- `stat.is_some_and(|stat| !stat.starts_with('Z'))`
is_live_stat : List Text → Bool
is_live_stat [] = false
is_live_stat ([] ∷ rest) = true
is_live_stat ((c ∷ s) ∷ rest) = not (c == b'Z')

-- One line of `ps -axo pgid=,stat=`: whether it is a member of the group that is no zombie.
member_line : ℕ → List Text → Bool
unfolding is_live_stat
member_line pgid [] = false
member_line pgid (field ∷ rest) = elim (parse_nat u32_max field) [
  | none ↦ false
  | some n ↦ n == pgid && is_live_stat rest
]

-- `group_has_live_non_zombie_member`, by the lines that `ps` prints; `none` is a failure to run it.
unfoldable pub group_has_live_non_zombie_member : ℕ → Option (List Text) → Bool
unfolding member_line
group_has_live_non_zombie_member pgid none = true
group_has_live_non_zombie_member pgid (some lines) =
    any (λ line. member_line pgid (split_whitespace line)) lines

-- The answers of the operating system during one call of `stop`. A poll loop reads the clock and
-- probes the group; the argument counts its rounds.
pub record Os : Type 0 where
  pub term : KillResult
  pub term_probe : KillResult
  pub elapsed : ℕ → ℕ
  pub probe : ℕ → KillResult
  pub kill : KillResult
  pub kill_elapsed : ℕ → ℕ
  pub kill_probe : ℕ → KillResult
  pub ps : ℕ → Option (List Text)
  pub now : ℕ  -- `Utc::now()` when an exit time is stored

-- The interval of both loops.
abbrev pub poll_ms : ℕ
poll_ms = 100

-- The deadline of `confirm_stopped_after_force_kill`.
abbrev pub confirm_ms : ℕ
confirm_ms = 10000

-- The `while start.elapsed() < timeout` loop after SIGTERM, from round `k` on: whether the group was
-- seen to be gone. `none`: the fuel ran out.
unfoldable pub wait_graceful : ℕ → Os → ℕ → ℕ → Option Bool
wait_graceful zero os timeout k = none
wait_graceful (suc fuel) os timeout k =
    let next = wait_graceful fuel os timeout (suc k) in
    if ltb (os.elapsed k) timeout
    then (if is_process_group_alive (os.probe k) then next else some true)
    else some false

-- `confirm_stopped_within`, from round `k` on: whether it returns `Ok`.
unfoldable pub confirm_stopped_within : ℕ → Os → ℕ → ℕ → ℕ → Option Bool
confirm_stopped_within zero os pgid timeout k = none
confirm_stopped_within (suc fuel) os pgid timeout k =
    let next = confirm_stopped_within fuel os pgid timeout (suc k) in
    if ltb (os.kill_elapsed k) timeout
    then (if is_process_group_alive (os.kill_probe k)
        then (if group_has_live_non_zombie_member pgid (os.ps k) then next else some true)
        else some true)
    else some false

-- What a call of `stop` leaves behind: the record, the signals sent, and whether it returned `Ok`.
pub record Stopped : Type 0 where
  pub proxy : ProxyInfo
  pub sent : List Signal
  pub ok : Bool

unfoldable pub mark_stopped : ℕ → ProxyInfo → ProxyInfo
mark_stopped now p = record (set_status stopped p) { exit_time = some now }

-- From `confirm_stopped_after_force_kill().await?` on.
unfoldable pub after_kill : Os → ProxyInfo → List Signal → Bool → Stopped
unfolding mark_stopped
after_kill os p sent true = record { proxy = mark_stopped os.now p; sent = sent; ok = true }
after_kill os p sent false = record { proxy = p; sent = sent; ok = false }

-- The forced part: SIGKILL, whatever it returns, and the confirmation.
unfoldable pub force_kill : ℕ → Os → ProxyInfo → List Signal → Option Stopped
unfolding after_kill
force_kill fuel os p sent = elim (confirm_stopped_within fuel os p.pid confirm_ms 0) [
  | none ↦ none
  | some confirmed ↦ some (after_kill os p (sent ++ sigkill ∷ []) confirmed)
]

-- What the graceful part found: the group gone, or the loop over.
after_wait : ℕ → Os → ProxyInfo → Option Bool → Option Stopped
unfolding mark_stopped force_kill
after_wait fuel os p none = none
after_wait fuel os p (some true) =
    some (record { proxy = mark_stopped os.now p; sent = sigterm ∷ []; ok = true })
after_wait fuel os p (some false) = force_kill fuel os p (sigterm ∷ [])

-- `stop(force, process_stop_timeout_ms)`
unfoldable pub stop : ℕ → Os → Bool → ℕ → ProxyInfo → Option Stopped
unfolding after_wait set_status send_signal_to_group
stop fuel os true timeout p = force_kill fuel os (set_status stopping p) []
stop fuel os false timeout p =
    let q = set_status stopping p in
    if not (send_signal_to_group os.term) && not (is_process_group_alive os.term_probe)
    then some (record { proxy = mark_stopped os.now q; sent = sigterm ∷ []; ok = true })
    else after_wait fuel os q (wait_graceful fuel os timeout 0)
