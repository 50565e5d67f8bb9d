-- ===== src/Process/Lifecycle/Calls.antt =====
-- What a call to stop leaves in the registry (`stop_process` of mcproc/src/daemon/process/manager.rs, when no
-- other call runs at the same time).
use mcproc.Prelude.{
  ◌≡◌, ◌≢◌, refl, ◌⊎◌, inl, inr, Bool, true, false, [], ◌∷◌, Option, none, some, Option-cases,
  arith, Text, insert, text_eq_refl, text_eq_iff, lookup-insert, lookup-remove, if◌then◌else◌,
}
use mcproc.Names.ProcessKey.{ProcessKey, key_eq}
use mcproc.Process.Proxy.{ProxyInfo}
use mcproc.Process.Stop.{Stopped}
use mcproc.Process.Events.{ProcessEvent}
use mcproc.Process.Registry.{
  ProcessRegistry, is_reserved, remove_process, take_process, release_of, release_name,
  get_process_by_id, get_process_by_name_or_id_with_project,
}
use mcproc.Process.Registry.Ownership.{is_reserved-release}
use mcproc.Process.Registry.Kept.{IsKept, remove-insert-IsKept}
use mcproc.Process.Lifecycle.{
  Attempt, completed, timed_out, StopResult, removed, process_not_found, stop_error, store,
  after_stop, stop_attempts, last_resort, stop_process,
}

-- An attempt that came to its end, with the record and the success that it ended with.
abbrev pub Completes : Attempt → ProxyInfo → Bool → Type 0
Completes a q ok = (s : Stopped) × (a ≡ completed s) × (q ≡ s.proxy) × (ok ≡ s.ok)

-- How the attempts to stop `p` end: the first comes to its end; or it times out, and was forced, which is a
-- failure; or a forced one follows it, which comes to its end or fails by its time.
abbrev pub Ended : (Bool → ProxyInfo → Attempt) → Bool → ProxyInfo → ProxyInfo → Bool → Type 0
Ended attempt force p q ok =
    Completes (attempt force p) q ok
    ⊎ ((left : ProxyInfo) × (attempt force p ≡ timed_out left)
        × (((force ≡ true) × (q ≡ left) × (ok ≡ false))
            ⊎ ((force ≡ false)
                × (Completes (attempt true left) q ok
                    ⊎ ((attempt true left ≡ timed_out q) × (ok ≡ false))))))

stop_attempts-Ended :
    (attempt : Bool → ProxyInfo → Attempt) (force : Bool) (p : ProxyInfo)
    → let s = stop_attempts force attempt (attempt force p) in Ended attempt force p s.0 s.1
unfolding stop_attempts last_resort
stop_attempts-Ended attempt force p = first force (attempt force p) refl
  where
    last :
        (left : ProxyInfo) (a : Attempt)
        → attempt true left ≡ a
        → let s = last_resort a in
          Completes (attempt true left) s.0 s.1
          ⊎ ((attempt true left ≡ timed_out s.0) × (s.1 ≡ false))
    last left (completed s) e = inl (s, e, refl, refl)
    last left (timed_out q) e = inr (e, refl)

    first :
        (f : Bool) (a : Attempt)
        → attempt f p ≡ a
        → let s = stop_attempts f attempt a in Ended attempt f p s.0 s.1
    first f (completed s) e = inl (s, e, refl, refl)
    first true (timed_out left) e = inr (left, e, inl (refl, refl, refl))
    first false (timed_out left) e = inr (left, e, inr (refl, last left (attempt true left) refl))

-- What a stop that found `p` leaves. Where the attempts succeed, it answers that the process is removed, the
-- process is gone and the key of its record is free, and no other. Where they fail, it answers the error,
-- and the process is registered, as they left it, and every name is reserved as before. No other process
-- is touched.
abbrev pub Stops :
    (Bool → ProxyInfo → Attempt)
    → Bool
    → ProxyInfo
    → ProcessRegistry
    → ProcessRegistry
    → StopResult
    → Type 0
Stops attempt force p r r' removed =
    ((q : ProxyInfo) × Ended attempt force p q true
      × ((k : ProcessKey) → is_reserved k r' ≡ (if key_eq q.key k then false else is_reserved k r)))
    × (get_process_by_id p.id r' ≡ none)
    × ((id : Text) → id ≢ p.id → get_process_by_id id r' ≡ get_process_by_id id r)
Stops attempt force p r r' stop_error =
    ((q : ProxyInfo) × Ended attempt force p q false × (get_process_by_id p.id r' ≡ some q))
    × (r'.reserved_names ≡ r.reserved_names)
    × ((id : Text) → id ≢ p.id → get_process_by_id id r' ≡ get_process_by_id id r)
Stops attempt force p r r' process_not_found = ⊥

module _ (attempt : Bool → ProxyInfo → Attempt) (force : Bool) where
  after_stop-Stops :
      (p q : ProxyInfo) (ok : Bool) (r : ProcessRegistry)
      → Ended attempt force p q ok
      → let done = after_stop p.id (q, ok) r in Stops attempt force p r done.0 done.1
  unfolding after_stop store remove_process take_process release_of get_process_by_id release_name
  after_stop-Stops p q true r ended =
      let m = insert p.id q r.processes in
      rw (lookup-insert p.id p.id q r.processes, text_eq_refl p.id)
        (
          (q, ended, λ k. unfold is_reserved in is_reserved-release q.key k r),
          rw (lookup-remove p.id p.id m, text_eq_refl p.id),
          λ id other.
              rw (lookup-remove p.id id m, lookup-insert p.id id q r.processes)
                (ground (arith, text_eq_iff p.id id, other)),
        )
  after_stop-Stops p q false r ended = (
    (q, ended, rw (lookup-insert p.id p.id q r.processes, text_eq_refl p.id)),
    refl,
    λ id other.
        rw (lookup-insert p.id id q r.processes) (ground (arith, text_eq_iff p.id id, other)),
  )

  after_stop-IsKept :
      (p : ProxyInfo) (s : ProxyInfo × Bool) (r : ProcessRegistry)
      → IsKept r
      → (after_stop p.id s r).1 ≡ removed
      → IsKept (after_stop p.id s r).0
  unfolding after_stop store remove_process take_process release_of release_name
  after_stop-IsKept p (q, false) r kept h = absurd (ground arith)
  after_stop-IsKept p (q, true) r kept h =
      rw (lookup-insert p.id p.id q r.processes, text_eq_refl p.id)
        (remove-insert-IsKept p.id q r _ kept)

-- A call to stop finds no process and changes nothing, or it finds one and tells that it is stopping. Then
-- it answers success where the first attempt, or the forced one behind a time-out, succeeds: the process is
-- gone and the key of its record is free, and no other key. Where they fail it answers an error: the process
-- is registered as they left it, and every name is reserved as before. No other process is touched.
pub stop_process-Stops :
    (is_uuid : Text → Bool) (attempt : Bool → ProxyInfo → Attempt) (name_or_id : Text)
    (project : Option Text) (force : Bool) (r : ProcessRegistry)
    → let result = stop_process is_uuid attempt name_or_id project force r in
      let found = get_process_by_name_or_id_with_project is_uuid name_or_id project r in
      ((found ≡ none) × (result ≡ (r, [], process_not_found)))
      ⊎ ((p : ProxyInfo) × (found ≡ some p)
          × (result.1 ≡ ProcessEvent.stopping p.id p.name p.project ∷ [])
          × Stops attempt force p r result.0 result.2)
unfolding stop_process
stop_process-Stops is_uuid attempt name_or_id project force r =
    elim (Option-cases (get_process_by_name_or_id_with_project is_uuid name_or_id project r)) [
      | inl e ↦ inl (e, rw (e, stop_process))
      | inr (p, e) ↦
          let s = stop_attempts force attempt (attempt force p) in
          inr (
            p,
            e,
            rw (e, stop_process) refl,
            rw (e, stop_process)
                (after_stop-Stops attempt force p s.0 s.1 r (stop_attempts-Ended attempt force p)),
          )
    ]

-- Behind a stop that succeeds, the registry is as it is to be kept.
pub stop_process-IsKept :
    (is_uuid : Text → Bool) (attempt : Bool → ProxyInfo → Attempt) (name_or_id : Text)
    (project : Option Text) (force : Bool) (r : ProcessRegistry)
    → IsKept r
    → (stop_process is_uuid attempt name_or_id project force r).2 ≡ removed
    → IsKept (stop_process is_uuid attempt name_or_id project force r).0
unfolding stop_process
stop_process-IsKept is_uuid attempt name_or_id project force r kept =
    elim (Option-cases (get_process_by_name_or_id_with_project is_uuid name_or_id project r)) [
      | inl e ↦ rw (e, stop_process) (λ h. absurd (ground arith))
      | inr (p, e) ↦
          rw (e, stop_process)
            (after_stop-IsKept attempt force p (stop_attempts force attempt (attempt force p)) r
              kept)
    ]
