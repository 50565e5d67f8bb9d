-- ===== src/Names/ProcessKey.antt =====
-- mcproc/src/common/process_key.rs: the identifier of a process, a project and a name.
use mcproc.Prelude.{
  Bool, ◌&&◌, List, [], ◌∷◌, ◌++◌, Option, none, some, ◌≡◌, ◌↔◌, arith, Text, codes, text_eq,
  text_eq_iff, text_eq_refl, &&_true, split, replace, true,
}

pub record ProcessKey : Type 0 where
  pub project : Text
  pub name : Text

-- `ProcessKey::new`
abbrev pub new : Text → Text → ProcessKey
new project name = record { project = project; name = name }

-- The derived `PartialEq`.
unfoldable pub key_eq : ProcessKey → ProcessKey → Bool
key_eq a b = text_eq a.project b.project && text_eq a.name b.name

pub key_eq_iff : (a b : ProcessKey) → (key_eq a b ≡ true) ↔ (a ≡ b)
unfolding key_eq
key_eq_iff a b = (
  λ h.
      let (same_project, same_name) =
        &&_true (text_eq a.project b.project) (text_eq a.name b.name) h in
      let p = (text_eq_iff a.project b.project).0 same_project in
      let q = (text_eq_iff a.name b.name).0 same_name in λ i. new (p i) (q i),
  λ e. rw e (ground (arith, text_eq_refl b.project, text_eq_refl b.name)),
)

unfoldable pub two_parts : List Text → Option ProcessKey
two_parts (project ∷ name ∷ []) = some (new project name)
two_parts _ = none

-- `ProcessKey::parse`: the two parts that one `/` separates
unfoldable pub parse : Text → Option ProcessKey
unfolding two_parts
parse key = two_parts (split b'/' key)

-- `as_str`, which `log_handle_key`, `Display` and both `From` use or repeat
unfoldable pub as_str : ProcessKey → Text
as_str key = key.project ++ (codes "/" ++ key.name)

unfoldable pub log_handle_key : ProcessKey → Text
unfolding as_str
log_handle_key key = as_str key

unfoldable pub sanitized_name : ProcessKey → Text
sanitized_name key = replace b'/' (codes "_") key.name
