-- ===== src/Names/Validation.antt =====
-- mcproc/src/common/validation.rs: the checks that a project name and a process name go through.
-- An `Err` carries which check refused the name, in place of its message.
use mcproc.Prelude.{
  ℕ, ◌-◌, Bool, ◌&&◌, ◌||◌, List, [], ◌∷◌, ◌++◌, map, Option, none, some, leb, ltb, not,
  if◌then◌else◌, is_empty, any, find, Text, codes, text_eq, contains, contains_text, is_control,
  byte_len, trim,
}

-- `invalid_char` has the character that the message quotes.
pub data NameError : Type 0 where
  empty dots separator : NameError
  invalid_char : ℕ → NameError
  whitespace control too_long reserved : NameError

-- `Result<(), String>`: `none` is `Ok(())`
abbrev pub Verdict : Type 0
Verdict = Option NameError

-- INVALID_CHARS
abbrev pub invalid_chars : Text
invalid_chars = codes ":*?\"<>|" ++ 0 ∷ []

-- WINDOWS_RESERVED
abbrev pub windows_reserved : List Text
windows_reserved = map codes (
    "CON" ∷ "PRN" ∷ "AUX" ∷ "NUL" ∷ "COM1" ∷ "COM2" ∷ "COM3" ∷ "COM4" ∷ "COM5" ∷ "COM6" ∷ "COM7"
    ∷ "COM8" ∷ "COM9" ∷ "LPT1" ∷ "LPT2" ∷ "LPT3" ∷ "LPT4" ∷ "LPT5" ∷ "LPT6" ∷ "LPT7" ∷ "LPT8"
    ∷ "LPT9" ∷ [])

-- `to_uppercase` on the letters that it is used for: no other character has an upper case that is
-- spelled with the letters and digits of the reserved names alone.
unfoldable pub to_uppercase : Text → Text
to_uppercase = map (λ c. if leb b'a' c && leb c b'z' then c - 32 else c)

unfoldable pub is_reserved : Text → Bool
is_reserved name = contains_text (to_uppercase name) windows_reserved

-- `name == "." || name == ".."`
unfoldable pub is_dots : Text → Bool
unfolding text_eq
is_dots name = text_eq name (codes ".") || text_eq name (codes "..")

-- `name.contains('/') || name.contains('\\')`
unfoldable pub has_separator : Text → Bool
has_separator name = contains b'/' name || contains b'\\' name

-- `name.chars().find(|c| INVALID_CHARS.contains(c))`
unfoldable pub find_invalid : Text → Option ℕ
find_invalid name = find (λ c. contains c invalid_chars) name

-- `name != name.trim()`
unfoldable pub is_padded : Text → Bool
is_padded name = not (text_eq name (trim name))

unfoldable pub has_control : Text → Bool
has_control name = any is_control name

abbrev pub max_project_len : ℕ
max_project_len = 255

abbrev pub max_process_len : ℕ
max_process_len = 100

unfoldable pub validate_project_name : Text → Verdict
validate_project_name name =
    if is_empty name
    then some empty
    else if is_dots name
    then some dots
    else if has_separator name
    then some separator
    else elim (find_invalid name) [
      | some c ↦ some (invalid_char c)
      | none ↦
          if is_padded name
          then some whitespace
          else if has_control name
          then some control
          else if ltb max_project_len (byte_len name)
          then some too_long
          else if is_reserved name
          then some reserved
          else none
    ]

unfoldable pub validate_process_name : Text → Verdict
validate_process_name name =
    if is_empty name
    then some empty
    else if is_dots name
    then some dots
    else if has_separator name
    then some separator
    else elim (find_invalid name) [
      | some c ↦ some (invalid_char c)
      | none ↦
          if is_padded name
          then some whitespace
          else if has_control name
          then some control
          else if ltb max_process_len (byte_len name)
          then some too_long
          else none
    ]
