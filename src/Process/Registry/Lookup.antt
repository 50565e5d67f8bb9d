-- ===== src/Process/Registry/Lookup.antt =====
-- What the lookups of mcproc/src/daemon/process/registry.rs find.
use mathlib.Core.List.{Memᴰ}
use mcproc.Prelude.{
  IsDistinct, ◌≢◌, ◌≡◌, refl, sym, ap, subst, ◌⊎◌, ◌∙◌, true, inl, inr, Bool, false, ◌&&◌, List, [],
  ◌∷◌, Option, none, some, arith, find, find_passes, &&_true, Bool-cases, Option-cases, Text,
  text_eq, text_eq_iff, text_eq→eq, Dict, lookup, text_eq_refl,
}
use mcproc.Process.Proxy.{ProxyInfo}
use mcproc.Process.Registry.{
  ProcessRegistry, get_process_by_id, get_process_by_name_with_project, in_project, id_lookup,
  get_all_processes, get_process_by_name_or_id_with_project, values, or_else,
}

-- An entry stands under the identifier of its process.
abbrev pub IsKeyed : Dict ProxyInfo → Type 0
IsKeyed [] = Unit {0}
IsKeyed ((j, p) ∷ m) = (p.id ≡ j) × IsKeyed m

lookup_id :
    (id : Text) (m : Dict ProxyInfo) (p : ProxyInfo) → IsKeyed m → lookup id m ≡ some p → p.id ≡ id
unfolding lookup
lookup_id id [] p k h = ground arith
lookup_id id ((j, q) ∷ m) p k h = elim (Bool-cases (text_eq j id)) [
  | inl e ↦ ground (arith, text_eq→eq j id e, k.0)
  | inr e ↦ lookup_id id m p k.1 (ground arith)
]

module _ (r : ProcessRegistry) where
  pub by_name_with_project :
      (name project : Text) (p : ProxyInfo)
      → get_process_by_name_with_project name project r ≡ some p
      → (p.name ≡ name) × (p.project ≡ project)
  unfolding get_process_by_name_with_project
  by_name_with_project name project p h =
      let (n, q) = &&_true (text_eq p.name name) (text_eq p.project project) (
        find_passes (λ (x : ProxyInfo). text_eq x.name name && text_eq x.project project)
          (values r.processes) p h) in
      (text_eq→eq p.name name n, text_eq→eq p.project project q)

  by_id_in_project :
      (is_uuid : Text → Bool) (id project : Text) (p : ProxyInfo)
      → IsKeyed r.processes
      → id_lookup is_uuid id project r ≡ some p
      → (p.id ≡ id) × (p.project ≡ project)
  unfolding id_lookup in_project get_process_by_id
  by_id_in_project is_uuid id project p keyed h = elim (Option-cases (lookup id r.processes)) [
    | inl e ↦ ground arith
    | inr (q, e) ↦ ground (arith, lookup_id id r.processes q keyed e, text_eq_iff q.project project)
  ]

or_else-some :
    (a b : Option ProxyInfo) (p : ProxyInfo) → or_else a b ≡ some p → (a ≡ some p) ⊎ (b ≡ some p)
or_else-some none b p h = inr h
or_else-some (some q) b p h = inl h

or_else-none : (a b : Option ProxyInfo) → or_else a b ≡ none → (a ≡ none) × (b ≡ none)
or_else-none none b h = (refl, h)
or_else-none (some q) b h = ground arith

-- Where a result comes from: the lookup by name, or the one by identifier.
lookup_origin :
    (is_uuid : Text → Bool) (r : ProcessRegistry) (n project : Text) (p : ProxyInfo)
    → get_process_by_name_or_id_with_project is_uuid n (some project) r ≡ some p
    → (get_process_by_name_with_project n project r ≡ some p)
      ⊎ (id_lookup is_uuid n project r ≡ some p)
unfolding get_process_by_name_or_id_with_project
lookup_origin is_uuid r n project p h = elim (Bool-cases (is_uuid n)) [
  | inl e ↦
      elim (or_else-some (id_lookup is_uuid n project r)
        (get_process_by_name_with_project n project r) p (rw e at h)) [
          | inl i ↦ inr i
          | inr i ↦ inl i
        ]
  | inr e ↦
      or_else-some (get_process_by_name_with_project n project r) (id_lookup is_uuid n project r) p
        (rw e at h)
]

-- A process found by name or identifier within a project belongs to the project, and has the text as its
-- name or as its identifier. Each entry of the registry is to stand under the identifier of its process.
pub lookup_sound :
    (is_uuid : Text → Bool) (r : ProcessRegistry) (name_or_id project : Text) (p : ProxyInfo)
    → IsKeyed r.processes
    → get_process_by_name_or_id_with_project is_uuid name_or_id (some project) r ≡ some p
    → (p.project ≡ project) × ((p.name ≡ name_or_id) ⊎ (p.id ≡ name_or_id))
lookup_sound is_uuid r n project p keyed h = elim (lookup_origin is_uuid r n project p h) [
  | inl i ↦ let (name, same) = by_name_with_project r n project p i in (same, inl name)
  | inr i ↦ let (id, same) = by_id_in_project r is_uuid n project p keyed i in (same, inr id)
]

find-none_mem :
    (q : ProxyInfo → Bool) (ps : List ProxyInfo) (p : ProxyInfo)
    → find q ps ≡ none
    → Memᴰ p ps
    → q p ≡ false
find-none_mem q [] p h m = elim m [ ]
find-none_mem q (x ∷ ps) p h (Memᴰ.head e) = rw e (ground arith)
find-none_mem q (x ∷ ps) p h (Memᴰ.tail m) = find-none_mem q ps p (ground arith) m

not_mem_absent :
    (id : Text) (m : Dict ProxyInfo) (p : ProxyInfo)
    → IsKeyed m
    → lookup id m ≡ none
    → Memᴰ p (values m)
    → p.id ≢ id
unfolding lookup values
not_mem_absent id [] p k h mem same = elim mem [ ]
not_mem_absent id ((j, q) ∷ m) p k h (Memᴰ.head e) same =
    ground (arith, text_eq_iff j id, k.0, ap (λ (x : ProxyInfo). x.id) e)
not_mem_absent id ((j, q) ∷ m) p k h (Memᴰ.tail mem) same =
    not_mem_absent id m p k.1 (ground arith) mem same

pub value_lookup :
    (m : Dict ProxyInfo) (p : ProxyInfo)
    → IsKeyed m
    → IsDistinct m
    → Memᴰ p (values m)
    → lookup p.id m ≡ some p
unfolding lookup values
value_lookup [] p k d h = elim h [ ]
value_lookup ((j, q) ∷ m) p k d (Memᴰ.head e) = rw e (rw (k.0, text_eq_refl j))
value_lookup ((j, q) ∷ m) p k d (Memᴰ.tail h) = ground (
  arith,
  text_eq_iff j p.id,
  λ (e : j ≡ p.id). not_mem_absent j m p k.1 d.0 h (sym e),
  value_lookup m p k.1 d.1 h,
)

lookup_nowhere :
    (is_uuid : Text → Bool) (r : ProcessRegistry) (n project : Text)
    → get_process_by_name_or_id_with_project is_uuid n (some project) r ≡ none
    → (get_process_by_name_with_project n project r ≡ none) × (id_lookup is_uuid n project r ≡ none)
unfolding get_process_by_name_or_id_with_project
lookup_nowhere is_uuid r n project h = elim (Bool-cases (is_uuid n)) [
  | inl e ↦
      let (i, j) =
        or_else-none (id_lookup is_uuid n project r) (get_process_by_name_with_project n project r)
          (rw e at h) in
      (j, i)
  | inr e ↦
      or_else-none (get_process_by_name_with_project n project r) (id_lookup is_uuid n project r)
        (rw e at h)
]

-- Where such a lookup finds nothing, no process of the project has the text as its name or identifier.
-- Each entry of the registry is to stand under the identifier of its process, and alone.
pub lookup_complete :
    (is_uuid : Text → Bool) (r : ProcessRegistry) (name_or_id project : Text) (p : ProxyInfo)
    → IsKeyed r.processes
    → IsDistinct r.processes
    → get_process_by_name_or_id_with_project is_uuid name_or_id (some project) r ≡ none
    → Memᴰ p (get_all_processes r)
    → p.project ≡ project
    → (p.name ≢ name_or_id) × (p.id ≢ name_or_id)
unfolding get_all_processes
lookup_complete is_uuid r n project p keyed distinct h m same = (not_name, not_id)
  where
    nowhere :
        (get_process_by_name_with_project n project r ≡ none)
        × (id_lookup is_uuid n project r ≡ none)
    nowhere = lookup_nowhere is_uuid r n project h

    test : ProxyInfo → Bool
    test x = text_eq x.name n && text_eq x.project project

    no_match : test p ≡ false
    no_match =
        unfold get_process_by_name_with_project in
        find-none_mem test (values r.processes) p nowhere.0 m

    not_name : p.name ≢ n
    not_name e = ground (arith, no_match, text_eq_iff p.name n, text_eq_iff p.project project)

    present : lookup p.id r.processes ≡ some p
    present = value_lookup r.processes p keyed distinct m

    in_it : in_project project (some p) ≡ some p
    in_it = unfold in_project in ground (arith, text_eq_iff p.project project)

    not_id : p.id ≢ n
    not_id e =
        let found : lookup n r.processes ≡ some p =
          subst (λ k. lookup k r.processes ≡ some p) e present in
        unfold id_lookup get_process_by_id in cc (ap (in_project project) found, in_it, nowhere.1)

-- A UUID that a process of the project bears finds that process.
pub uuid_found :
    (is_uuid : Text → Bool) (project : Text) (r : ProcessRegistry) (p : ProxyInfo)
    → get_process_by_id p.id r ≡ some p
    → p.project ≡ project
    → is_uuid p.id ≡ true
    → get_process_by_name_or_id_with_project is_uuid p.id (some project) r ≡ some p
unfolding get_process_by_name_or_id_with_project id_lookup in_project
uuid_found is_uuid project r p here same uuid =
    let eq : text_eq p.project project ≡ true = (text_eq_iff p.project project).1 same in
    rw uuid (
      ap (λ o. or_else (in_project project o) (get_process_by_name_with_project p.id project r))
        here
      ∙ rw eq refl)

in_project-some :
    (project : Text) (o : Option ProxyInfo) (p : ProxyInfo)
    → in_project project o ≡ some p
    → o ≡ some p
unfolding in_project
in_project-some project none p h = absurd (ground arith)
in_project-some project (some q) p h = ground arith

-- A process that is found stands under its identifier, or it was found by its name.
pub lookup_place :
    (is_uuid : Text → Bool) (r : ProcessRegistry) (n project : Text) (p : ProxyInfo)
    → IsKeyed r.processes
    → get_process_by_name_or_id_with_project is_uuid n (some project) r ≡ some p
    → (get_process_by_name_with_project n project r ≡ some p) ⊎ (get_process_by_id p.id r ≡ some p)
unfolding id_lookup
lookup_place is_uuid r n project p keyed h = elim (lookup_origin is_uuid r n project p h) [
  | inl i ↦ inl i
  | inr i ↦
      let id = (by_id_in_project r is_uuid n project p keyed i).0 in
      inr (
        subst (λ x. get_process_by_id x r ≡ some p) (sym id)
          (in_project-some project (get_process_by_id n r) p i))
]
