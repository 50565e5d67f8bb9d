-- ===== src/Process/Registry/Ownership.antt =====
-- Who owns a name, however starts and stops of mcproc/src/daemon/process/manager.rs interleave on the
-- registry: one launch in progress, one registered process, or one removal that is not over.
use mcproc.Prelude.{
  ℕ, ◌+◌, ◌≡◌, refl, Bool, true, false, not, List, [], ◌∷◌, ◌++◌, none, some, arith, any, filter,
  Bool-cases, Option-cases, inl, inr, if◌then◌else◌, Text, text_eq, text_eq→eq, Dict, lookup,
  insert, remove, IsDistinct, remove_absent, remove-IsDistinct, insert-IsDistinct,
}
use mcproc.Names.ProcessKey.{ProcessKey, key_eq, key_eq_iff}
use mcproc.Process.Status.{ProcessStatus}
use mcproc.Process.Proxy.{ProxyInfo, set_status}
use mcproc.Process.Proxy
use mcproc.Process.Registry.{
  ProcessRegistry, add_process, is_reserved, try_reserve_name, release_name, take_process,
}
use mcproc.Process.Registry.Schedule.{
  Task, lookup_name, found, reserve, holding, registered, remove_stopped, releasing, finished,
  Launch, launch_error, launched, proxy_of, after_take, after_lookup, on_launch, advance,
  change_status, IsFresh,
}

abbrev pub one_if : Bool → ℕ
one_if true = 1
one_if false = 0

-- How many of the entries are processes of the key.
unfoldable pub registered_count : ProcessKey → Dict ProxyInfo → ℕ
registered_count k [] = 0
registered_count k ((j, p) ∷ m) = one_if (key_eq p.key k) + registered_count k m

-- How often a task owns the key: by a reservation it holds, or a removal it has to finish.
abbrev pub owned : ProcessKey → Task → ℕ
owned k (holding j) = one_if (key_eq j k)
owned k (releasing j rest) = one_if (key_eq j k) + owned k rest
owned k _ = 0

unfoldable pub owned_count : ProcessKey → List Task → ℕ
owned_count k [] = 0
owned_count k (t ∷ ts) = owned k t + owned_count k ts

pub owned_count-append :
    (k : ProcessKey) (ts us : List Task)
    → owned_count k (ts ++ us) ≡ owned_count k ts + owned_count k us
unfolding owned_count
owned_count-append k [] us = omega arith
owned_count-append k (t ∷ ts) us = omega (arith, owned_count-append k ts us)

any_release :
    (j k : ProcessKey) (ks : List ProcessKey)
    → any (λ x. key_eq x k) (filter (λ x. not (key_eq x j)) ks)
      ≡ (if key_eq j k then false else any (λ x. key_eq x k) ks)
any_release j k [] = ground arith
any_release j k (x ∷ ks) =
    ground (arith, any_release j k ks, key_eq_iff x j, key_eq_iff x k, key_eq_iff j k)

pub is_reserved-release :
    (j k : ProcessKey) (r : ProcessRegistry)
    → is_reserved k (release_name j r) ≡ (if key_eq j k then false else is_reserved k r)
unfolding is_reserved release_name
is_reserved-release j k r = any_release j k r.reserved_names

registered_count-remove :
    (k : ProcessKey) (id : Text) (m : Dict ProxyInfo) (p : ProxyInfo)
    → IsDistinct m
    → lookup id m ≡ some p
    → registered_count k m ≡ one_if (key_eq p.key k) + registered_count k (remove id m)
unfolding registered_count lookup remove
registered_count-remove k id [] p d h = ground arith
registered_count-remove k id ((j, q) ∷ m) p d h = elim (Bool-cases (text_eq j id)) [
  | inl e ↦ rw e (ground (arith, remove_absent id m (rw (text_eq→eq j id e) at d.0)))
  | inr e ↦ ground (arith, registered_count-remove k id m p d.1)
]

registered_count-insert :
    (k : ProcessKey) (id : Text) (p : ProxyInfo) (m : Dict ProxyInfo)
    → lookup id m ≡ none
    → registered_count k (insert id p m) ≡ registered_count k m + one_if (key_eq p.key k)
unfolding registered_count lookup insert
registered_count-insert k id p [] h = omega arith
registered_count-insert k id p ((j, q) ∷ m) h = ground (arith, registered_count-insert k id p m)

pub registered_count-change :
    (k : ProcessKey) (id : Text) (s : ProcessStatus) (m : Dict ProxyInfo)
    → registered_count k (change_status id s m) ≡ registered_count k m
unfolding registered_count change_status set_status
registered_count-change k id s [] = refl
registered_count-change k id s ((j, q) ∷ m) = ground (arith, registered_count-change k id s m)

-- What holds of one task and the registry, with `others` for what the other tasks own.
abbrev pub Balanced : ProcessKey → ℕ → Task → ProcessRegistry → Type 0
Balanced k others t r =
    owned k t + others + registered_count k r.processes ≡ one_if (is_reserved k r)

module _ (k : ProcessKey) (others : ℕ) where
  release_Balanced :
      (j : ProcessKey) (t : Task) (r : ProcessRegistry)
      → Balanced k others (releasing j t) r
      → Balanced k others t (release_name j r)
  unfolding release_name
  release_Balanced j t r h = ground (arith, is_reserved-release j k r)

  take_Balanced :
      (id : Text) (t : Task) (r : ProcessRegistry)
      → IsDistinct r.processes
      → Balanced k others t r
      → Balanced k others (after_take (take_process id r).1 t) (take_process id r).0
  unfolding take_process after_take is_reserved
  take_Balanced id t r d h = elim (Option-cases (lookup id r.processes)) [
    | inl e ↦ rw e (rw (remove_absent id r.processes e) h)
    | inr (p, e) ↦ rw e (ground (arith, registered_count-remove k id r.processes p d e))
  ]

  reserve_Balanced :
      (j : ProcessKey) (r : ProcessRegistry)
      → others + registered_count k r.processes ≡ one_if (is_reserved k r)
      → Balanced k others
          (if (try_reserve_name j r).1 then holding j else finished)
          (try_reserve_name j r).0
  unfolding try_reserve_name is_reserved
  reserve_Balanced j r h = ground (arith, key_eq_iff j k)

  launch_Balanced :
      (j : ProcessKey) (launch : Launch) (r : ProcessRegistry)
      → IsFresh launch r
      → Balanced k others (holding j) r
      → Balanced k others (advance launch (holding j) r).1 (advance launch (holding j) r).0
  unfolding advance add_process is_reserved Proxy.new
  launch_Balanced j launch_error r fresh h = release_Balanced j finished r (omega arith)
  launch_Balanced j (launched id pid now) r fresh h =
      ground (arith, registered_count-insert k id (proxy_of j id pid now) r.processes fresh)

  lookup_Balanced :
      (j : ProcessKey) (launch : Launch) (r : ProcessRegistry)
      → Balanced k others (lookup_name j) r
      → Balanced k others (advance launch (lookup_name j) r).1 (advance launch (lookup_name j) r).0
  unfolding advance after_lookup
  lookup_Balanced j launch r h = ground arith

  -- A step of a task keeps the balance of every key.
  pub advance-Balanced :
      (launch : Launch) (t : Task) (r : ProcessRegistry)
      → IsDistinct r.processes
      → IsFresh launch r
      → Balanced k others t r
      → Balanced k others (advance launch t r).1 (advance launch t r).0
  unfolding advance
  advance-Balanced launch (lookup_name j) r d fresh h = lookup_Balanced j launch r h
  advance-Balanced launch (found j id) r d fresh h = take_Balanced id (reserve j) r d h
  advance-Balanced launch (reserve j) r d fresh h = reserve_Balanced j r (omega arith)
  advance-Balanced launch (holding j) r d fresh h = launch_Balanced j launch r fresh h
  advance-Balanced launch (registered j) r d fresh h = h
  advance-Balanced launch (remove_stopped id) r d fresh h = take_Balanced id finished r d h
  advance-Balanced launch (releasing j rest) r d fresh h = release_Balanced j rest r h
  advance-Balanced launch finished r d fresh h = h

lookup_unchanged :
    (launch : Launch) (j : ProcessKey) (r : ProcessRegistry)
    → (advance launch (lookup_name j) r).0 ≡ r
unfolding advance
lookup_unchanged launch j r = ground arith

reserve_unchanged :
    (j : ProcessKey) (r : ProcessRegistry) → (try_reserve_name j r).0.processes ≡ r.processes
unfolding try_reserve_name
reserve_unchanged j r = ground arith

pub advance-IsDistinct :
    (launch : Launch) (t : Task) (r : ProcessRegistry)
    → IsDistinct r.processes
    → IsDistinct (advance launch t r).0.processes
unfolding advance take_process try_reserve_name release_name add_process on_launch
advance-IsDistinct launch (lookup_name j) r d = rw (lookup_unchanged launch j r) d
advance-IsDistinct launch (found j id) r d = remove-IsDistinct id r.processes d
advance-IsDistinct launch (reserve j) r d = rw (reserve_unchanged j r) d
advance-IsDistinct launch_error (holding j) r d = d
advance-IsDistinct (launched id pid now) (holding j) r d = insert-IsDistinct _ _ r.processes d
advance-IsDistinct launch (registered j) r d = d
advance-IsDistinct launch (remove_stopped id) r d = remove-IsDistinct id r.processes d
advance-IsDistinct launch (releasing j rest) r d = d
advance-IsDistinct launch finished r d = d

lookup_change_none :
    (j id : Text) (s : ProcessStatus) (m : Dict ProxyInfo)
    → lookup j m ≡ none
    → lookup j (change_status id s m) ≡ none
unfolding lookup change_status
lookup_change_none j id s [] h = h
lookup_change_none j id s ((i, p) ∷ m) h = ground (arith, lookup_change_none j id s m)

pub change-IsDistinct :
    (id : Text) (s : ProcessStatus) (m : Dict ProxyInfo)
    → IsDistinct m
    → IsDistinct (change_status id s m)
unfolding change_status
change-IsDistinct id s [] d = d
change-IsDistinct id s ((i, p) ∷ m) d =
    (lookup_change_none i id s m d.0, change-IsDistinct id s m d.1)
