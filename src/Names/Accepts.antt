-- ===== src/Names/Accepts.antt =====
-- Which names mcproc/src/common/validation.rs accepts, said without its checks.
use mathlib.Core.List.{Memᴰ}
use mcproc.Prelude.{
  ◌==◌, ltb, find, is_empty, trim_whole, trim_of_edges, trim_starts, trim_ends, ℕ, ◌≤◌, ◌≡◌, ◌≢◌,
  ◌↔◌, refl, false, Bool, List, [], ◌∷◌, ◌++◌, none, arith, any, Text, codes, text_eq_iff, contains,
  contains_text, is_whitespace, is_control, byte_len, trim, trim_start, trim_end,
}
use mcproc.Names.Validation.{
  windows_reserved, to_uppercase, invalid_chars, find_invalid, is_dots, has_separator, is_padded,
  has_control, is_reserved, max_project_len, max_process_len, validate_project_name,
  validate_process_name,
}

-- A character that neither check refuses.
abbrev pub IsAllowed : ℕ → Type 0
IsAllowed c = (c ≢ b'/') × (c ≢ b'\\') × (contains c invalid_chars ≡ false) × (is_control c ≡ false)

pub record IsName (limit : ℕ) (name : Text) : Type 0 where
  pub nonempty : name ≢ []
  pub not_dot : name ≢ codes "."
  pub not_dots : name ≢ codes ".."
  pub allowed : (c : ℕ) → Memᴰ c name → IsAllowed c
  pub starts : (c : ℕ) (s : Text) → name ≡ c ∷ s → is_whitespace c ≡ false
  pub ends : (c : ℕ) (s : Text) → name ≡ s ++ c ∷ [] → is_whitespace c ≡ false
  pub short : byte_len name ≤ limit

any-false_mem : (p : ℕ → Bool) (s : Text) → any p s ≡ false → (c : ℕ) → Memᴰ c s → p c ≡ false
any-false_mem p [] h c m = elim m [ ]
any-false_mem p (x ∷ s) h c (Memᴰ.head e) = ground arith
any-false_mem p (x ∷ s) h c (Memᴰ.tail m) = any-false_mem p s (ground arith) c m

mem_any-false : (p : ℕ → Bool) (s : Text) → ((c : ℕ) → Memᴰ c s → p c ≡ false) → any p s ≡ false
mem_any-false p [] h = refl
mem_any-false p (x ∷ s) h =
    ground (arith, h x (Memᴰ.head refl), mem_any-false p s (λ c m. h c (Memᴰ.tail m)))

find-none : (p : ℕ → Bool) (s : Text) → (find p s ≡ none) ↔ (any p s ≡ false)
find-none p [] = ground arith
find-none p (x ∷ s) = ground (arith, find-none p s)

-- The tests that both functions make, each with the answer that lets a name pass.
abbrev Passes : Text → Type 0
Passes name =
    (is_empty name ≡ false)
    × (is_dots name ≡ false)
    × (has_separator name ≡ false)
    × (find_invalid name ≡ none)
    × (is_padded name ≡ false)
    × (has_control name ≡ false)

process_Passes :
    (name : Text)
    → (validate_process_name name ≡ none)
      ↔ (Passes name × (ltb max_process_len (byte_len name) ≡ false))
unfolding validate_process_name
process_Passes name = ground arith

project_Passes :
    (name : Text)
    → (validate_project_name name ≡ none)
      ↔ (Passes name × (ltb max_project_len (byte_len name) ≡ false) × (is_reserved name ≡ false))
unfolding validate_project_name
project_Passes name = ground arith

padded : (name : Text) → (is_padded name ≡ false) ↔ (trim name ≡ name)
unfolding is_padded
padded name = ground (arith, text_eq_iff name (trim name))

IsAllowed-Passes : (name : Text) → Passes name → (c : ℕ) → Memᴰ c name → IsAllowed c
unfolding has_separator has_control find_invalid
IsAllowed-Passes name (_, _, sep, inv, _, ctl) c m = (
  slash,
  backslash,
  any-false_mem (λ x. contains x invalid_chars) name ((find-none _ name).0 inv) c m,
  any-false_mem is_control name ctl c m,
)
  where
    slash : c ≢ b'/'
    slash = ground (arith, any-false_mem (λ x. x == b'/') name (ground arith) c m)

    backslash : c ≢ b'\\'
    backslash = ground (arith, any-false_mem (λ x. x == b'\\') name (ground arith) c m)

Passes-IsName : (limit : ℕ) (name : Text) → Passes name → byte_len name ≤ limit → IsName limit name
unfolding is_dots
Passes-IsName limit name h short = record {
  nonempty = λ e. ground (arith, h.0);
  not_dot = ground (arith, h.1, text_eq_iff name (codes "."));
  not_dots = ground (arith, h.1, text_eq_iff name (codes ".."));
  allowed = IsAllowed-Passes name h;
  starts = λ c s e. trim_starts c s (rw e at whole.0);
  ends = λ c s e. trim_ends c s (rw e at whole.1);
  short = short;
}
  where
    whole : (trim_start name ≡ name) × (trim_end name ≡ name)
    whole = trim_whole name ((padded name).0 h.4)

IsName-Passes : (limit : ℕ) (name : Text) → IsName limit name → Passes name
unfolding is_dots has_separator has_control find_invalid
IsName-Passes limit name h = (
  ground (arith, h.nonempty),
  ground
      (arith, h.not_dot, h.not_dots, text_eq_iff name (codes "."), text_eq_iff name (codes "..")),
  ground (
    arith,
    mem_any-false (λ x. x == b'/') name (λ c m. ground (arith, (h.allowed c m).0)),
    mem_any-false (λ x. x == b'\\') name (λ c m. ground (arith, (h.allowed c m).1)),
  ),
  (find-none _ name).1
      (mem_any-false (λ x. contains x invalid_chars) name (λ c m. (h.allowed c m).2)),
  (padded name).1 (trim_of_edges name h.starts h.ends),
  mem_any-false is_control name (λ c m. (h.allowed c m).3),
)

pub IsName-no_slash : {limit : ℕ} (name : Text) → IsName limit name → contains b'/' name ≡ false
IsName-no_slash name h =
    mem_any-false (λ x. x == b'/') name (λ c m. ground (arith, (h.allowed c m).0))

-- `validate_process_name` accepts exactly the names of at most 100 bytes that are not empty, `.` or
-- `..`, begin and end with no white space, and hold no separator, no control character and none of
-- the characters `:*?"<>|`.
pub validate_process_name-IsName :
    (name : Text) → (validate_process_name name ≡ none) ↔ IsName max_process_len name
validate_process_name-IsName name = (
  λ h.
      let (passes, short) = (process_Passes name).0 h in
      Passes-IsName max_process_len name passes (ground arith),
  λ h. (process_Passes name).1 (IsName-Passes max_process_len name h, ground (arith, h.short)),
)

contains_text_mem :
    (t : Text) (ts : List Text) → contains_text t ts ≡ false → (r : Text) → Memᴰ r ts → t ≢ r
contains_text_mem t [] h r m same = elim m [ ]
contains_text_mem t (x ∷ ts) h r (Memᴰ.head e) same = ground (arith, text_eq_iff x t)
contains_text_mem t (x ∷ ts) h r (Memᴰ.tail m) same = contains_text_mem t ts (ground arith) r m same

contains_text_none :
    (t : Text) (ts : List Text) → ((r : Text) → Memᴰ r ts → t ≢ r) → contains_text t ts ≡ false
contains_text_none t [] h = refl
contains_text_none t (x ∷ ts) h = ground (
  arith,
  text_eq_iff x t,
  h x (Memᴰ.head refl),
  contains_text_none t ts (λ r m. h r (Memᴰ.tail m)),
)

-- `validate_project_name` accepts exactly the names of at most 255 bytes that are not empty, `.` or
-- `..`, begin and end with no white space, hold no separator, no control character and none of the
-- characters `:*?"<>|`, and are no name that Windows reserves, in either case.
pub validate_project_name-IsName :
    (name : Text)
    → (validate_project_name name ≡ none) ↔ (
        IsName max_project_len name
        × ((r : Text) → Memᴰ r windows_reserved → to_uppercase name ≢ r))
unfolding is_reserved
validate_project_name-IsName name = (
  λ h.
      let (passes, short, free) = (project_Passes name).0 h in
      (
        Passes-IsName max_project_len name passes (ground arith),
        contains_text_mem (to_uppercase name) windows_reserved free,
      ),
  λ h. (project_Passes name).1 (
    IsName-Passes max_project_len name h.0,
    ground (arith, h.0.short),
    contains_text_none (to_uppercase name) windows_reserved h.1,
  ),
)
