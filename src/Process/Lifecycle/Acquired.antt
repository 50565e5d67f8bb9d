-- ===== src/Process/Lifecycle/Acquired.antt =====
-- How a call to start gets its name: the check of the name, the removal of a process that is over, and the
-- reservation (`start_process_with_log_stream` of mcproc/src/daemon/process/manager.rs).
use mcproc.Prelude.{
  ◌≡◌, refl, sym, ap, ◌∙◌, ◌⊎◌, inl, inr, Bool, true, false, Option, none, some, Bool-cases, arith,
  Text, text_eq, lookup, lookup-remove, if◌then◌else◌, some_inj,
}
use mcproc.Names.ProcessKey.{ProcessKey, key_eq_iff}
use mcproc.Process.Proxy.{ProxyInfo, get_status}
use mcproc.Process.Registry.{
  ProcessRegistry, try_reserve_name, is_reserved, release_name, remove_process, take_process,
  release_of, get_process_by_id, get_process_by_name_with_project,
}
use mcproc.Process.Registry.Ownership.{is_reserved-release}
use mcproc.Process.Registry.Kept.{IsKept, found_kept}
use mcproc.Process.Lifecycle.{acquire_name, and_reserve, free_name, is_over}

-- The process that has the name.
abbrev pub holder : ProcessKey → ProcessRegistry → Option ProxyInfo
holder key r = get_process_by_name_with_project key.name key.project r

-- No process has the name, or the one that is found is over.
abbrev pub IsFree : ProcessKey → ProcessRegistry → Type 0
IsFree key r = (p : ProxyInfo) → holder key r ≡ some p → is_over (get_status p) ≡ true

-- What is registered under an identifier, without the process that had the name.
abbrev pub without : Option ProxyInfo → ProcessRegistry → Text → Option ProxyInfo
without none r id = get_process_by_id id r
without (some old) r id = if text_eq old.id id then none else get_process_by_id id r

-- A process of the name is not over.
abbrev pub IsHeld : ProcessKey → ProcessRegistry → Type 0
IsHeld key r = (p : ProxyInfo) × (holder key r ≡ some p) × (is_over (get_status p) ≡ false)

-- What the attempt to get the name leaves.
unfoldable pub Acquires : ProcessKey → ProcessRegistry → ProcessRegistry → Bool → Type 0
Acquires key r r' true =
    (is_reserved key r' ≡ true)
    × IsFree key r
    × ((id : Text) → get_process_by_id id r' ≡ without (holder key r) r id)
Acquires key r r' false =
    (r' ≡ r) × (IsHeld key r ⊎ ((holder key r ≡ none) × (is_reserved key r ≡ true)))

-- What an attempt to reserve the name comes to.
Tries : ProcessKey → ProcessRegistry → ProcessRegistry × Bool → Type 0
Tries key s (t, true) =
    (is_reserved key s ≡ false) × (is_reserved key t ≡ true) × (t.processes ≡ s.processes)
Tries key s (t, false) = (is_reserved key s ≡ true) × (t ≡ s)

try_reserve_name-Tries :
    (key : ProcessKey) (s : ProcessRegistry) → Tries key s (try_reserve_name key s)
unfolding try_reserve_name Tries is_reserved
try_reserve_name-Tries key s = elim (Bool-cases (is_reserved key s)) [
  | inl e ↦ rw e (e, refl)
  | inr e ↦ rw e (e, rw ((key_eq_iff key key).1 refl) refl, refl)
]

module _ (key : ProcessKey) (r : ProcessRegistry) where
  freed :
      (old : ProxyInfo)
      → get_process_by_id old.id r ≡ some old
      → old.key ≡ key
      → is_reserved key (remove_process old.id r).0 ≡ false
  unfolding remove_process take_process release_of get_process_by_id is_reserved
  freed old here same =
      rw here (rw (is_reserved-release old.key key r, (key_eq_iff old.key key).1 same) refl)

  gone :
      (old : ProxyInfo)
      → get_process_by_id old.id r ≡ some old
      → (id : Text) → get_process_by_id id (remove_process old.id r).0 ≡ without (some old) r id
  unfolding remove_process take_process release_of get_process_by_id release_name
  gone old here id = rw (here, lookup-remove old.id id r.processes) refl

  nobody :
      (t : ProcessRegistry × Bool) → holder key r ≡ none → Tries key r t → Acquires key r t.0 t.1
  unfolding Tries Acquires get_process_by_id
  nobody (t, true) e (free, reserved, same) = (
    reserved,
    λ p h. absurd (ground (arith, e, h)),
    λ id. ap (lookup id) same ∙ ap (λ o. without o r id) (sym e),
  )
  nobody (t, false) e (taken, same) = (same, inr (e, taken))

  looked_up :
      (s t : ProcessRegistry)
      → s.processes ≡ t.processes
      → (id : Text) → get_process_by_id id s ≡ get_process_by_id id t
  unfolding get_process_by_id
  looked_up s t e id = ap (lookup id) e

  replaced :
      (old : ProxyInfo) (t : ProcessRegistry × Bool)
      → holder key r ≡ some old
      → is_over (get_status old) ≡ true
      → get_process_by_id old.id r ≡ some old
      → old.key ≡ key
      → Tries key (remove_process old.id r).0 t
      → Acquires key r t.0 t.1
  unfolding Tries Acquires
  replaced old (t, false) e over here same (taken, eq) =
      absurd (ground (arith, freed old here same))
  replaced old (t, true) e over here same (free, reserved, eq) = (
    reserved,
    λ p h. ap (λ x. is_over (get_status x)) (some_inj p old (sym h ∙ e)) ∙ over,
    λ id.
        looked_up t (remove_process old.id r).0 eq id
        ∙ gone old here id
        ∙ ap (λ o. without o r id) (sym e),
  )

  by_holder :
      IsKept r
      → (found : Option ProxyInfo) → holder key r ≡ found
      → let a = and_reserve key (free_name found r) in Acquires key r a.0 a.1
  unfolding free_name and_reserve
  by_holder kept none e = nobody (try_reserve_name key r) e (try_reserve_name-Tries key r)
  by_holder kept (some old) e = elim (Bool-cases (is_over (get_status old))) [
    | inr held ↦ rw held (unfold Acquires in (refl, inl (old, e, held)))
    | inl over ↦
        let (here, same) = found_kept key r old kept e in
        let s = (remove_process old.id r).0 in
        rw over (
          replaced old (try_reserve_name key s) e over (unfold get_process_by_id in here) same
            (try_reserve_name-Tries key s))
  ]

  pub acquire_name-Acquires :
      IsKept r → Acquires key r (acquire_name key r).0 (acquire_name key r).1
  unfolding acquire_name
  acquire_name-Acquires kept = by_holder kept (holder key r) refl
