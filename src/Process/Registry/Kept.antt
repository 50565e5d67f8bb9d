-- ===== src/Process/Registry/Kept.antt =====
-- What `add_process` of mcproc/src/daemon/process/registry.rs keeps of the registry, and what a lookup by
-- name finds there.
use mathlib.Core.List.{Memᴰ}
use mcproc.Prelude.{
  true, IsDistinct, ◌≡◌, sym, ◌∙◌, inl, inr, Bool, List, [], ◌∷◌, some, arith, find, Bool-cases,
  Text, text_eq, text_eq_refl, Dict, lookup, insert, remove, insert-IsDistinct, remove-IsDistinct,
  some_inj,
}
use mcproc.Names.ProcessKey.{ProcessKey}
use mcproc.Names.ProcessKey
use mcproc.Process.Proxy.{ProxyInfo}
use mcproc.Process.Registry.{
  ProcessRegistry, get_process_by_name_with_project, values, get_process_by_id,
  get_process_by_name_or_id_with_project,
}
use mcproc.Process.Registry.Lookup.{
  IsKeyed, value_lookup, by_name_with_project, lookup_place, lookup_sound, uuid_found,
}

-- Each process stands under its identifier, and its key is of its project and its name.
abbrev pub AreKept : Dict ProxyInfo → Type 0
AreKept [] = Unit {0}
AreKept ((j, p) ∷ m) = (p.id ≡ j) × (p.key ≡ ProcessKey.new p.project p.name) × AreKept m

pub record IsKept (r : ProcessRegistry) : Type 0 where
  pub entries : AreKept r.processes
  pub distinct : IsDistinct r.processes

pub AreKept-IsKeyed : (m : Dict ProxyInfo) → AreKept m → IsKeyed m
AreKept-IsKeyed [] h = h
AreKept-IsKeyed ((j, p) ∷ m) (id, key, rest) = (id, AreKept-IsKeyed m rest)

remove-AreKept : (k : Text) (m : Dict ProxyInfo) → AreKept m → AreKept (remove k m)
unfolding remove
remove-AreKept k [] h = h
remove-AreKept k ((j, p) ∷ m) (id, key, rest) = elim (Bool-cases (text_eq j k)) [
  | inl e ↦ rw e (remove-AreKept k m rest)
  | inr e ↦ rw e (id, key, remove-AreKept k m rest)
]

remove-insert-AreKept :
    (k : Text) (q : ProxyInfo) (m : Dict ProxyInfo) → AreKept m → AreKept (remove k (insert k q m))
unfolding remove insert
remove-insert-AreKept k q [] h = rw (text_eq_refl k) tt
remove-insert-AreKept k q ((j, p) ∷ m) (id, key, rest) = elim (Bool-cases (text_eq j k)) [
  | inl e ↦ rw e (dropped (remove-AreKept k m rest))
  | inr e ↦ rw (e, e) (id, key, remove-insert-AreKept k q m rest)
]
  where
    dropped : AreKept (remove k m) → AreKept (remove k ((k, q) ∷ m))
    dropped h = rw (text_eq_refl k) h

-- A process that was stored and then removed leaves the registry as it is to be kept.
pub remove-insert-IsKept :
    (k : Text) (q : ProxyInfo) (r : ProcessRegistry) (keys : List ProcessKey)
    → IsKept r
    → IsKept (record { processes = remove k (insert k q r.processes); reserved_names = keys })
remove-insert-IsKept k q r keys kept = record {
  entries = remove-insert-AreKept k q r.processes kept.entries;
  distinct =
      remove-IsDistinct k (insert k q r.processes)
        (insert-IsDistinct k q r.processes kept.distinct);
}

find_mem :
    (f : ProxyInfo → Bool) (ps : List ProxyInfo) (p : ProxyInfo) → find f ps ≡ some p → Memᴰ p ps
find_mem f [] p h = absurd (ground arith)
find_mem f (x ∷ ps) p h = elim (Bool-cases (f x)) [
  | inl e ↦ Memᴰ.head (sym (some_inj x p (rw e at h)))
  | inr e ↦ Memᴰ.tail (find_mem f ps p (rw e at h))
]

key_of_value :
    (m : Dict ProxyInfo) (p : ProxyInfo)
    → AreKept m
    → Memᴰ p (values m)
    → p.key ≡ ProcessKey.new p.project p.name
unfolding values
key_of_value [] p h mem = elim mem [ ]
key_of_value ((j, q) ∷ m) p (id, key, rest) (Memᴰ.head e) = rw e key
key_of_value ((j, q) ∷ m) p (id, key, rest) (Memᴰ.tail mem) = key_of_value m p rest mem

-- A process that is found by a name stands under its identifier, and its key is the one of the name.
pub found_kept :
    (key : ProcessKey) (r : ProcessRegistry) (p : ProxyInfo)
    → IsKept r
    → get_process_by_name_with_project key.name key.project r ≡ some p
    → (lookup p.id r.processes ≡ some p) × (p.key ≡ key)
unfolding get_process_by_name_with_project
found_kept key r p kept h =
    let mem = find_mem _ (values r.processes) p h in
    let (name, project) = by_name_with_project r key.name key.project p h in
    (
      value_lookup r.processes p (AreKept-IsKeyed r.processes kept.entries) kept.distinct mem,
      key_of_value r.processes p kept.entries mem ∙ (λ i. ProcessKey.new (project i) (name i)),
    )

-- A stop by the UUID of a process that a lookup has found finds the same process.
pub found_again :
    (is_uuid : Text → Bool) (name_or_id project : Text) (r : ProcessRegistry) (p : ProxyInfo)
    → IsKept r
    → ((id : Text) (q : ProxyInfo) → get_process_by_id id r ≡ some q → is_uuid id ≡ true)
    → get_process_by_name_or_id_with_project is_uuid name_or_id (some project) r ≡ some p
    → get_process_by_name_or_id_with_project is_uuid p.id (some project) r ≡ some p
unfolding get_process_by_id
found_again is_uuid n project r p kept uuids h =
    let keyed = AreKept-IsKeyed r.processes kept.entries in
    let same = (lookup_sound is_uuid r n project p keyed h).0 in
    let here : get_process_by_id p.id r ≡ some p =
      elim (lookup_place is_uuid r n project p keyed h) [
        | inl i ↦ (found_kept (ProcessKey.new project n) r p kept i).0
        | inr i ↦ i
      ] in
    uuid_found is_uuid project r p here same (uuids p.id p here)
