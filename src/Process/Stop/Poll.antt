-- ===== src/Process/Stop/Poll.antt =====
-- The two polling loops of `ProxyInfo::stop` (mcproc/src/daemon/process/proxy.rs) have one shape: until
-- the time is over, ask whether the group is settled, and sleep.
use mcproc.Prelude.{
  ℕ, zero, suc, ◌+◌, ◌*◌, ◌≤◌, ◌<◌, ◌≡◌, refl, Bool, true, false, not, ◌||◌, Option, none, some,
  ltb, ◌==◌, ==_iff, arith, Bool-cases, if◌then◌else◌, inl, inr,
}
use mcproc.Process.Stop.{
  Os, is_process_group_alive, group_has_live_non_zombie_member, poll_ms, wait_graceful,
  confirm_stopped_within,
}

-- A round sleeps for the interval, so round `k` begins no sooner than `k` intervals in.
abbrev pub Ticks : (ℕ → ℕ) → Type 0
Ticks elapsed = (k : ℕ) → poll_ms * k ≤ elapsed k

module _ (elapsed : ℕ → ℕ) (settled : ℕ → Bool) (timeout : ℕ) where
  poll : ℕ → ℕ → Option Bool
  poll zero k = none
  poll (suc fuel) k =
      let next = poll fuel (suc k) in
      if ltb (elapsed k) timeout then (if settled k then some true else next) else some false

  poll_total :
      (fuel k : ℕ)
      → Ticks elapsed
      → poll_ms * k ≤ timeout + poll_ms
      → timeout + poll_ms < poll_ms * (k + fuel)
      → (b : Bool) × (poll fuel k ≡ some b)
  unfolding poll
  poll_total zero k ticks early enough = absurd (omega arith)
  poll_total (suc fuel) k ticks early enough = elim (Bool-cases (ltb (elapsed k) timeout)) [
    | inr late ↦ (false, rw late)
    | inl soon ↦ elim (Bool-cases (settled k)) [
      | inl done ↦ (true, rw (soon, done))
      | inr more ↦
          rw (soon, more) (poll_total fuel (suc k) ticks (ground (arith, ticks k)) (omega arith))
    ]
  ]

  poll_settled : (fuel k : ℕ) → poll fuel k ≡ some true → (n : ℕ) × (settled n ≡ true)
  unfolding poll
  poll_settled zero k h = ground arith
  poll_settled (suc fuel) k h = elim (Bool-cases (settled k)) [
    | inl done ↦ (k, done)
    | inr more ↦ poll_settled fuel (suc k) (ground arith)
  ]

  -- The loop gave up: the time was over at some round, and every round before it was unsettled.
  poll_late :
      (fuel k : ℕ)
      → poll fuel k ≡ some false
      → (n : ℕ) × (timeout ≤ elapsed n) × ((j : ℕ) → k ≤ j → j < n → settled j ≡ false)
  unfolding poll
  poll_late zero k h = ground arith
  poll_late (suc fuel) k h = elim (Bool-cases (ltb (elapsed k) timeout)) [
    | inr late ↦ (k, ground arith, λ j lo hi. absurd (omega arith))
    | inl soon ↦
        let more : settled k ≡ false = ground arith in
        let (n, over, before) = poll_late fuel (suc k) (ground arith) in
        (
          n,
          over,
          λ j lo hi. elim (Bool-cases (j == k)) [
            | inl e ↦ rw ((==_iff j k).0 e) more
            | inr e ↦ before j (ground arith) hi
          ],
        )
  ]

-- The loop after SIGTERM is settled by a probe that finds no group.
abbrev pub gone : Os → ℕ → Bool
gone os k = not (is_process_group_alive (os.probe k))

wait_graceful-poll :
    (os : Os) (timeout fuel k : ℕ)
    → wait_graceful fuel os timeout k ≡ poll os.elapsed (gone os) timeout fuel k
unfolding wait_graceful poll
wait_graceful-poll os timeout zero k = refl
wait_graceful-poll os timeout (suc fuel) k =
    ground (arith, wait_graceful-poll os timeout fuel (suc k))

-- The loop after SIGKILL also settles for a group of zombies.
abbrev pub cleared : Os → ℕ → ℕ → Bool
cleared os pgid k =
    not (is_process_group_alive (os.kill_probe k))
    || not (group_has_live_non_zombie_member pgid (os.ps k))

confirm-poll :
    (os : Os) (pgid timeout fuel k : ℕ)
    → confirm_stopped_within fuel os pgid timeout k
      ≡ poll os.kill_elapsed (cleared os pgid) timeout fuel k
unfolding confirm_stopped_within poll
confirm-poll os pgid timeout zero k = refl
confirm-poll os pgid timeout (suc fuel) k =
    ground (arith, confirm-poll os pgid timeout fuel (suc k))

module _ (os : Os) (timeout fuel : ℕ) where
  pub wait_graceful_total :
      Ticks os.elapsed
      → timeout + poll_ms < poll_ms * fuel
      → (b : Bool) × (wait_graceful fuel os timeout 0 ≡ some b)
  wait_graceful_total ticks enough =
      rw wait_graceful-poll
        (poll_total os.elapsed (gone os) timeout fuel 0 ticks (omega arith) (omega arith))

  pub wait_graceful-gone :
      wait_graceful fuel os timeout 0 ≡ some true → (n : ℕ) × (gone os n ≡ true)
  wait_graceful-gone h =
      poll_settled os.elapsed (gone os) timeout fuel 0 (rw wait_graceful-poll at h)

  pub wait_graceful_late :
      wait_graceful fuel os timeout 0 ≡ some false
      → (n : ℕ) × (timeout ≤ os.elapsed n) × ((j : ℕ) → j < n → gone os j ≡ false)
  wait_graceful_late h =
      let (n, over, before) =
        poll_late os.elapsed (gone os) timeout fuel 0 (rw wait_graceful-poll at h) in
      (n, over, λ j hi. before j (omega arith) hi)

module _ (os : Os) (pgid timeout fuel : ℕ) where
  pub confirm_total :
      Ticks os.kill_elapsed
      → timeout + poll_ms < poll_ms * fuel
      → (b : Bool) × (confirm_stopped_within fuel os pgid timeout 0 ≡ some b)
  confirm_total ticks enough = rw confirm-poll (
      poll_total os.kill_elapsed (cleared os pgid) timeout fuel 0 ticks (omega arith) (omega arith))

  pub confirm_cleared :
      confirm_stopped_within fuel os pgid timeout 0 ≡ some true
      → (n : ℕ) × (cleared os pgid n ≡ true)
  confirm_cleared h =
      poll_settled os.kill_elapsed (cleared os pgid) timeout fuel 0 (rw confirm-poll at h)

  pub confirm_late :
      confirm_stopped_within fuel os pgid timeout 0 ≡ some false
      → (n : ℕ) × (timeout ≤ os.kill_elapsed n) × ((j : ℕ) → j < n → cleared os pgid j ≡ false)
  confirm_late h =
      let (n, over, before) =
        poll_late os.kill_elapsed (cleared os pgid) timeout fuel 0 (rw confirm-poll at h) in
      (n, over, λ j hi. before j (omega arith) hi)
