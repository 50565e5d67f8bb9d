-- ===== src/Process/Stop/Outcome.antt =====
-- What a call of `ProxyInfo::stop` (mcproc/src/daemon/process/proxy.rs) achieves.
use mcproc.Prelude.{
  ℕ, ◌+◌, ◌*◌, ◌≤◌, ◌<◌, ◌≡◌, refl, Bool, true, false, not, ◌&&◌, List, [], ◌∷◌, ◌++◌, some, arith,
  Bool-cases, ◌⊎◌, inl, inr,
}
use mcproc.Process.Status.{stopping, stopped, to_u8, from_u8}
use mcproc.Process.Proxy.{ProxyInfo, get_status, set_status}
use mcproc.Process.Stop.{
  Os, Signal, sigterm, sigkill, Stopped, is_process_group_alive, send_signal_to_group, poll_ms,
  confirm_ms, wait_graceful, confirm_stopped_within, mark_stopped, after_kill, force_kill,
  after_wait, stop,
}
use mcproc.Process.Stop.Poll.{
  Ticks, gone, cleared, wait_graceful_total, wait_graceful-gone, wait_graceful_late, confirm_total,
  confirm_cleared, confirm_late,
}

-- Some answer of the system that shows the group gone, or left with zombies alone.
abbrev pub SeenGone : Os → ℕ → Type 0
SeenGone os pgid =
    (is_process_group_alive os.term_probe ≡ false)
    ⊎ ((n : ℕ) × (gone os n ≡ true))
    ⊎ ((n : ℕ) × (cleared os pgid n ≡ true))

-- The record after a stop that worked.
pub record IsStopped (os : Os) (p q : ProxyInfo) : Type 0 where
  pub status : get_status q ≡ stopped
  pub exit_time : q.exit_time ≡ some os.now
  pub evidence : SeenGone os p.pid

-- The record after a stop that failed: the group outlived the whole time after SIGKILL.
pub record IsStuck (os : Os) (p q : ProxyInfo) : Type 0 where
  pub status : get_status q ≡ stopping
  pub exit_time : q.exit_time ≡ p.exit_time
  pub outlived :
      (n : ℕ) × (confirm_ms ≤ os.kill_elapsed n) × ((j : ℕ) → j < n → cleared os p.pid j ≡ false)

abbrev pub Outcome : Os → ProxyInfo → Stopped → Type 0
Outcome os p s = ((s.ok ≡ true) × IsStopped os p s.proxy) ⊎ ((s.ok ≡ false) × IsStuck os p s.proxy)

IsStopped-now :
    (os : Os) (p : ProxyInfo)
    → SeenGone os p.pid
    → IsStopped os p (mark_stopped os.now (set_status stopping p))
unfolding mark_stopped set_status get_status to_u8 from_u8
IsStopped-now os p e = record { status = refl; exit_time = refl; evidence = e }

stopping_status : (p : ProxyInfo) → get_status (set_status stopping p) ≡ stopping
unfolding set_status get_status to_u8 from_u8
stopping_status p = refl

module _ (fuel : ℕ) (os : Os) (p : ProxyInfo) where
  force_kill-Outcome :
      (sent : List Signal)
      → Ticks os.kill_elapsed
      → confirm_ms + poll_ms < poll_ms * fuel
      → (s : Stopped) × (force_kill fuel os (set_status stopping p) sent ≡ some s)
        × Outcome os p s
        × (s.sent ≡ sent ++ sigkill ∷ [])
  unfolding force_kill set_status
  force_kill-Outcome sent ticks enough =
      let (b, e) = confirm_total os p.pid confirm_ms fuel ticks enough in
      (after_kill os q (sent ++ sigkill ∷ []) b, rw (e, force_kill), cases b e, log b)
    where
      q : ProxyInfo
      q = set_status stopping p

      log : (b : Bool) → (after_kill os q (sent ++ sigkill ∷ []) b).sent ≡ sent ++ sigkill ∷ []
      log true = refl
      log false = refl

      cases :
          (b : Bool)
          → confirm_stopped_within fuel os p.pid confirm_ms 0 ≡ some b
          → Outcome os p (after_kill os q (sent ++ sigkill ∷ []) b)
      cases true e =
          inl (refl, IsStopped-now os p (inr (inr (confirm_cleared os p.pid confirm_ms fuel e))))
      cases false e = inr (
        refl,
        record {
          status = stopping_status p;
          exit_time = refl;
          outlived = confirm_late os p.pid confirm_ms fuel e;
        },
      )

-- The signals of a call: SIGKILL alone if it is forced, else SIGTERM, and SIGKILL behind it only
-- after a full timeout in which every probe found the group.
abbrev pub Sent : Bool → Os → ℕ → List Signal → Type 0
Sent true os timeout sent = sent ≡ sigkill ∷ []
Sent false os timeout sent =
    (sent ≡ sigterm ∷ [])
    ⊎ ((sent ≡ sigterm ∷ sigkill ∷ [])
        × ((n : ℕ) × (timeout ≤ os.elapsed n) × ((j : ℕ) → j < n → gone os j ≡ false)))

module _ (fuel : ℕ) (os : Os) (timeout : ℕ) (p : ProxyInfo) where
  graceful-Outcome :
      (b : Bool)
      → wait_graceful fuel os timeout 0 ≡ some b
      → Ticks os.kill_elapsed
      → confirm_ms + poll_ms < poll_ms * fuel
      → (s : Stopped) × (after_wait fuel os (set_status stopping p) (some b) ≡ some s)
        × Outcome os p s
        × Sent false os timeout s.sent
  unfolding after_wait
  graceful-Outcome true e ticks enough = (
    record { proxy = mark_stopped os.now (set_status stopping p); sent = sigterm ∷ []; ok = true },
    refl,
    inl (refl, IsStopped-now os p (inr (inl (wait_graceful-gone os timeout fuel e)))),
    inl refl,
  )
  graceful-Outcome false e ticks enough =
      let (s, same, outcome, sent) = force_kill-Outcome fuel os p (sigterm ∷ []) ticks enough in
      (s, same, outcome, inr (sent, wait_graceful_late os timeout fuel e))

-- A call of `stop` whose polls are at least 100 ms apart returns. Either it reports success, the status
-- is Stopped, the exit time is set, and some answer of the system showed the group gone or left with
-- zombies; or it reports an error, the status is Stopping, the exit time is as before, and at every poll
-- until 10 seconds after SIGKILL the group had a live member. A forced call sends SIGKILL alone; any
-- other sends SIGTERM, and SIGKILL only after the timeout, with the group alive at every poll until then.
pub stop-Outcome :
    (fuel : ℕ) (os : Os) (force : Bool) (timeout : ℕ) (p : ProxyInfo)
    → Ticks os.elapsed
    → Ticks os.kill_elapsed
    → timeout + poll_ms < poll_ms * fuel
    → confirm_ms + poll_ms < poll_ms * fuel
    → (s : Stopped) × (stop fuel os force timeout p ≡ some s)
      × Outcome os p s
      × Sent force os timeout s.sent
unfolding stop
stop-Outcome fuel os true timeout p ticks kill_ticks enough kill_enough =
    force_kill-Outcome fuel os p [] kill_ticks kill_enough
stop-Outcome fuel os false timeout p ticks kill_ticks enough kill_enough =
    elim (Bool-cases
      (not (send_signal_to_group os.term) && not (is_process_group_alive os.term_probe))) [
        | inl absent ↦ (
          record {
            proxy = mark_stopped os.now (set_status stopping p);
            sent = sigterm ∷ [];
            ok = true;
          },
          rw absent,
          inl (refl, IsStopped-now os p (inl (ground arith))),
          inl refl,
        )
        | inr present ↦
            let (b, e) = wait_graceful_total os timeout fuel ticks enough in
            rw (present, e) (graceful-Outcome fuel os timeout p b e kill_ticks kill_enough)
      ]
