-- ===== src/Names/Keys.antt =====
-- What the checks on names give to the keys: the printed key and the log file identify the process.
use mathlib.Core.List.{append_cancel_left, append_cancel_right}
use mcproc.Prelude.{
  ◌≡◌, ◌≢◌, refl, sym, ap, ◌∙◌, true, false, List, [], ◌∷◌, ◌++◌, none, some, arith, append_assoc,
  append-nil, if◌then◌else◌, Text, codes, contains, split, split_self, split-append, intercalate,
  intercalate-split, replace_absent,
}
use mcproc.Names.Validation.{validate_project_name, validate_process_name}
use mcproc.Names.Accepts.{
  IsName-no_slash, validate_project_name-IsName, validate_process_name-IsName,
}
use mcproc.Names.ProcessKey.{ProcessKey, new, parse, two_parts, as_str}
use mcproc.Names.LogPath.{is_absolute, needs_separator, join, get_log_file_path_for_key}

-- A key whose project and name pass the checks.
abbrev pub IsValidKey : ProcessKey → Type 0
IsValidKey k = (validate_project_name k.project ≡ none) × (validate_process_name k.name ≡ none)

-- What the file system needs to know of a component of a path.
record IsComponent (name : Text) : Type 0 where
  present : name ≢ []
  plain : contains b'/' name ≡ false

project_IsComponent : (k : ProcessKey) → IsValidKey k → IsComponent k.project
project_IsComponent k v =
    let n = ((validate_project_name-IsName k.project).0 v.0).0 in
    record { present = n.nonempty; plain = IsName-no_slash k.project n }

name_IsComponent : (k : ProcessKey) → IsValidKey k → IsComponent k.name
name_IsComponent k v =
    let n = (validate_process_name-IsName k.name).0 v.1 in
    record { present = n.nonempty; plain = IsName-no_slash k.name n }

-- The printed form of a key that passes the checks parses back to the key.
pub parse-as_str : (k : ProcessKey) → IsValidKey k → parse (as_str k) ≡ some k
unfolding parse as_str
parse-as_str k v = ap two_parts (
    split-append b'/' k.project k.name (project_IsComponent k v).plain
    ∙ ap (λ ps. k.project ∷ ps) (split_self b'/' k.name (name_IsComponent k v).plain))

two_parts_inv :
    (ps : List Text) (k : ProcessKey) → two_parts ps ≡ some k → ps ≡ k.project ∷ k.name ∷ []
unfolding two_parts
two_parts_inv [] k h = ground arith
two_parts_inv (p ∷ []) k h = ground arith
two_parts_inv (p ∷ q ∷ []) k h = ground arith
two_parts_inv (p ∷ q ∷ r ∷ ps) k h = ground arith

-- What parses to a key is the printed form of that key.
pub as_str-parse : (s : Text) (k : ProcessKey) → parse s ≡ some k → as_str k ≡ s
unfolding parse as_str intercalate
as_str-parse s k h =
    sym (ap (intercalate b'/') (two_parts_inv (split b'/' s) k h)) ∙ intercalate-split b'/' s

absolute_IsComponent : (name rest : Text) → IsComponent name → is_absolute (name ++ rest) ≡ false
unfolding is_absolute
absolute_IsComponent [] rest h = absurd (h.present refl)
absolute_IsComponent (c ∷ s) rest h = ground (arith, h.plain)

needs_separator-IsComponent :
    (s name : Text) → IsComponent name → needs_separator (s ++ name) ≡ true
unfolding needs_separator
needs_separator-IsComponent [] [] h = absurd (h.present refl)
needs_separator-IsComponent [] (c ∷ []) h = ground (arith, h.plain)
needs_separator-IsComponent [] (c ∷ d ∷ t) h =
    needs_separator-IsComponent [] (d ∷ t)
      (record { present = λ e. cc; plain = ground (arith, h.plain) })
needs_separator-IsComponent (x ∷ []) [] h = absurd (h.present refl)
needs_separator-IsComponent (x ∷ []) (c ∷ t) h = needs_separator-IsComponent [] (c ∷ t) h
needs_separator-IsComponent (x ∷ y ∷ s) name h = needs_separator-IsComponent (y ∷ s) name h

-- The directory with the separator that a component is put behind.
abbrev pub base : Text → Text
base dir = dir ++ (if needs_separator dir then codes "/" else [])

join-IsComponent :
    (dir name rest : Text) → IsComponent name → join dir (name ++ rest) ≡ base dir ++ (name ++ rest)
unfolding join
join-IsComponent dir name rest h =
    rw (absolute_IsComponent name rest h)
      (sym (append_assoc dir (if needs_separator dir then codes "/" else []) (name ++ rest)))

-- The log file of a key that passes the checks is `<log_dir>/<project>/<name>.log`: the project and
-- the name are one component each, and no part of them is read as a path.
pub log_path_layout :
    (dir : Text) (k : ProcessKey)
    → IsValidKey k
    → get_log_file_path_for_key dir k ≡ base dir ++ (k.project ++ b'/' ∷ (k.name ++ codes ".log"))
unfolding get_log_file_path_for_key
log_path_layout dir k v =
    let p = project_IsComponent k v in
    let n = name_IsComponent k v in
    let project_dir : join dir k.project ≡ base dir ++ k.project =
      rw append-nil at (join-IsComponent dir k.project [] p) in
    rw (replace_absent b'/' (codes "_") k.name n.plain, project_dir)
      (join-IsComponent (base dir ++ k.project) k.name (codes ".log") n
        ∙ rw (needs_separator-IsComponent (base dir) k.project p) (simp append_assoc))

first_component :
    (p q r t : Text)
    → contains b'/' p ≡ false
    → contains b'/' q ≡ false
    → p ++ b'/' ∷ r ≡ q ++ b'/' ∷ t
    → (p ≡ q) × (r ≡ t)
first_component [] [] r t hp hq e = ground arith
first_component [] (d ∷ q) r t hp hq e = ground arith
first_component (c ∷ p) [] r t hp hq e = ground arith
first_component (c ∷ p) (d ∷ q) r t hp hq e =
    let (same, rest) = first_component p q r t (ground arith) (ground arith) (ground arith) in
    (ground arith, rest)

-- Keys that pass the checks and share a log file are one key.
pub log_path_injective :
    (dir : Text) (a b : ProcessKey)
    → IsValidKey a
    → IsValidKey b
    → get_log_file_path_for_key dir a ≡ get_log_file_path_for_key dir b
    → a ≡ b
log_path_injective dir a b va vb h =
    let below : base dir ++ (a.project ++ b'/' ∷ (a.name ++ codes ".log"))
        ≡ base dir ++ (b.project ++ b'/' ∷ (b.name ++ codes ".log")) =
      sym (log_path_layout dir a va) ∙ h ∙ log_path_layout dir b vb in
    let (same_project, rest) =
      first_component a.project b.project (a.name ++ codes ".log") (b.name ++ codes ".log")
        (project_IsComponent a va).plain (project_IsComponent b vb).plain
        (append_cancel_left (base dir) _ _ below) in
    let same_name = append_cancel_right a.name b.name (codes ".log") rest in
    λ i. new (same_project i) (same_name i)
