-- ===== src/Log/Sources.antt =====
-- Which log files a query reads: `resolve_log_sources` of
-- mcproc/src/daemon/api/grpc/log_handlers.rs.
use mathlib.Core.List.{Memᴰ}
use mcproc.Prelude.{
  some_inj, ◌≡◌, refl, sym, ap, ◌∙◌, subst, ◌⊎◌, inl, inr, Bool, true, false, not, ◌&&◌, List, [],
  ◌∷◌, ◌++◌, filter, Option, none, some, if◌then◌else◌, is_empty, Text, contains_text, Bool-cases,
  arith, &&_true,
}
use mcproc.Names.Validation.{Verdict, validate_project_name, validate_process_name}
use mcproc.Names.ProcessKey
use mcproc.Names.ProcessKey.{ProcessKey}

unfoldable pub is_ok : Verdict → Bool
is_ok none = true
is_ok (some e) = false

-- `additional_names`
unfoldable pub additional_names : List Text → List Text → List Text
additional_names requested discovered =
    if is_empty requested then discovered else filter (λ n. contains_text n discovered) requested

abbrev pub names : List ProcessKey → List Text
names [] = []
names (k ∷ ks) = k.name ∷ names ks

-- A name is added if it passes the check and was not seen, which is to say that no source has it.
unfoldable pub add_source : Text → Text → List ProcessKey → List ProcessKey
unfolding is_ok
add_source project name sources =
    if is_ok (validate_process_name name) && not (contains_text name (names sources))
    then sources ++ ProcessKey.new project name ∷ []
    else sources

unfoldable pub add_sources : Text → List Text → List ProcessKey → List ProcessKey
unfolding add_source
add_sources project [] sources = sources
add_sources project (name ∷ rest) sources =
    add_sources project rest (add_source project name sources)

unfoldable pub all_valid : List Text → Bool
unfolding is_ok
all_valid [] = true
all_valid (n ∷ ns) = is_ok (validate_process_name n) && all_valid ns

-- The sources, or none for `invalid_argument`.
unfoldable pub resolve_log_sources :
    Text → List ProcessKey → List Text → List Text → Option (List ProcessKey)
unfolding is_ok add_sources additional_names all_valid
resolve_log_sources project matches requested discovered =
    if is_ok (validate_project_name project) && all_valid requested
    then some (add_sources project (additional_names requested discovered) matches)
    else none

-- A source was there, or it is a name of the list that passes the check, in the project.
abbrev pub IsSource : Text → List Text → List ProcessKey → ProcessKey → Type 0
IsSource project ns sources k =
    Memᴰ k sources
    ⊎ ((k.project ≡ project) × (validate_process_name k.name ≡ none) × Memᴰ k.name ns)

mem_snoc {ℓ} : {A : Type ℓ} (k j : A) (ks : List A) → Memᴰ k (ks ++ j ∷ []) → Memᴰ k ks ⊎ (k ≡ j)
mem_snoc k j [] (Memᴰ.head e) = inr e
mem_snoc k j [] (Memᴰ.tail m) = elim m [ ]
mem_snoc k j (i ∷ ks) (Memᴰ.head e) = inl (Memᴰ.head e)
mem_snoc k j (i ∷ ks) (Memᴰ.tail m) = elim (mem_snoc k j ks m) [
  | inl h ↦ inl (Memᴰ.tail h)
  | inr e ↦ inr e
]

is_ok-none : (v : Verdict) → is_ok v ≡ true → v ≡ none
unfolding is_ok
is_ok-none none h = refl
is_ok-none (some e) h = ground arith

add_source-IsSource :
    (project name : Text) (sources : List ProcessKey) (k : ProcessKey)
    → Memᴰ k (add_source project name sources)
    → IsSource project (name ∷ []) sources k
unfolding add_source
add_source-IsSource project name sources k m =
    elim (Bool-cases
      (is_ok (validate_process_name name) && not (contains_text name (names sources)))) [
        | inr e ↦ inl (rw e at m)
        | inl e ↦ elim (mem_snoc k (ProcessKey.new project name) sources (rw e at m)) [
          | inl h ↦ inl h
          | inr same ↦ inr (
            ap (λ (x : ProcessKey). x.project) same,
            ap (λ (x : ProcessKey). validate_process_name x.name) same
                ∙ is_ok-none (validate_process_name name)
                    (&&_true (is_ok (validate_process_name name))
                      (not (contains_text name (names sources))) e).0,
            Memᴰ.head (ap (λ (x : ProcessKey). x.name) same),
          )
        ]
      ]

add_sources-IsSource :
    (project : Text) (ns : List Text) (sources : List ProcessKey) (k : ProcessKey)
    → Memᴰ k (add_sources project ns sources)
    → IsSource project ns sources k
unfolding add_sources
add_sources-IsSource project [] sources k m = inl m
add_sources-IsSource project (name ∷ rest) sources k m =
    elim (add_sources-IsSource project rest (add_source project name sources) k m) [
      | inr (same, valid, listed) ↦ inr (same, valid, Memᴰ.tail listed)
      | inl here ↦ elim (add_source-IsSource project name sources k here) [
        | inl before ↦ inl before
        | inr (same, valid, Memᴰ.head e) ↦ inr (same, valid, Memᴰ.head e)
        | inr (same, valid, Memᴰ.tail none_left) ↦ elim none_left [ ]
      ]
    ]

-- Sources are given only for a project whose name passes the check. Each was one of the processes that the
-- registry gave, or has this project and a name that passes the check and is one of the additional names.
pub resolve_log_sources-IsSource :
    (project : Text) (matches : List ProcessKey) (requested discovered : List Text)
    (sources : List ProcessKey) (k : ProcessKey)
    → resolve_log_sources project matches requested discovered ≡ some sources
    → Memᴰ k sources
    → (validate_project_name project ≡ none)
      × IsSource project (additional_names requested discovered) matches k
unfolding resolve_log_sources
resolve_log_sources-IsSource project matches requested discovered sources k h m =
    elim (Bool-cases (is_ok (validate_project_name project) && all_valid requested)) [
      | inr e ↦ absurd (ground arith)
      | inl e ↦ (
        is_ok-none (validate_project_name project)
            (&&_true (is_ok (validate_project_name project)) (all_valid requested) e).0,
        add_sources-IsSource project (additional_names requested discovered) matches k
            (subst (λ ks. Memᴰ k ks) (sym (some_inj _ sources (rw e at h))) m),
      )
    ]
