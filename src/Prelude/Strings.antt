-- ===== src/Prelude/Strings.antt =====
-- Text as a list of code points (a `&str`, a `String`) or of bytes (a `Vec<u8>`, `Bytes`), with the
-- functions of Rust's standard library that the program calls on it.
use Prim.Native.Nat.{ℕ, ◌+◌}
use Prim.Native.Char.{code}
use Prim.Native.String.{String}
use mathlib.Core.Path.{◌≡◌, refl, ap, ◌∙◌}
use mathlib.Core.Logic.{◌↔◌, inl, inr}
use mathlib.Core.Bool.{Bool, true, false, ◌&&◌, ◌||◌}
use mathlib.Core.List.{List, [], ◌∷◌, ◌++◌}
use mathlib.Core.Option.{Option, none, some}
use native.Mathlib.Omega.{arith}
use mcproc.Prelude.Tests.{leb, ltb, ◌==◌, if◌then◌else◌, Bool-cases}
use mcproc.Prelude.Lists.{any}

abbrev pub Text : Type 0
Text = List ℕ

-- The code points of a literal.
abbrev pub codes : String → Text
codes String.[] = []
codes (String.◌∷◌ c s) = code c ∷ codes s

-- `a == b` on strings
unfoldable pub text_eq : Text → Text → Bool
text_eq [] [] = true
text_eq (a ∷ s) (b ∷ t) = a == b && text_eq s t
text_eq _ _ = false

pub text_eq_refl : (s : Text) → text_eq s s ≡ true
unfolding text_eq
text_eq_refl [] = refl
text_eq_refl (a ∷ s) = ground (arith, text_eq_refl s)

pub text_eq→eq : (s t : Text) → text_eq s t ≡ true → s ≡ t
unfolding text_eq
text_eq→eq [] [] h = refl
text_eq→eq [] (b ∷ t) h = ground arith
text_eq→eq (a ∷ s) [] h = ground arith
text_eq→eq (a ∷ s) (b ∷ t) h = ground (arith, text_eq→eq s t)

pub text_eq_iff : (s t : Text) → (text_eq s t ≡ true) ↔ (s ≡ t)
text_eq_iff s t = (text_eq→eq s t, λ e. ground (arith, text_eq_refl s))

-- `s.contains(c)`
abbrev pub contains : ℕ → Text → Bool
contains c s = any (λ x. x == c) s

-- `names.contains(name)`
abbrev pub contains_text : Text → List Text → Bool
contains_text t ts = any (λ s. text_eq s t) ts

-- `s.split(c)`: the pieces between the separators, at least one
consume : ℕ → ℕ → List Text → List Text
consume sep c [] = (c ∷ []) ∷ []
consume sep c (piece ∷ rest) = if c == sep then [] ∷ piece ∷ rest else (c ∷ piece) ∷ rest

unfoldable pub split : ℕ → Text → List Text
unfolding consume
split sep [] = [] ∷ []
split sep (c ∷ s) = consume sep c (split sep s)

consume-cons :
    (sep c : ℕ) (ps : List Text) → (p : Text) × (rest : List Text) × (consume sep c ps ≡ p ∷ rest)
unfolding consume
consume-cons sep c [] = (c ∷ [], [], refl)
consume-cons sep c (piece ∷ rest) = elim (Bool-cases (c == sep)) [
  | inl e ↦ ([], piece ∷ rest, rw e)
  | inr e ↦ (c ∷ piece, rest, rw e)
]

-- A split has at least one piece.
pub split-cons : (sep : ℕ) (s : Text) → (p : Text) × (rest : List Text) × (split sep s ≡ p ∷ rest)
unfolding split
split-cons sep [] = ([], [], refl)
split-cons sep (c ∷ s) = consume-cons sep c (split sep s)

pub split_self : (sep : ℕ) (s : Text) → contains sep s ≡ false → split sep s ≡ s ∷ []
unfolding split
split_self sep [] h = refl
split_self sep (c ∷ s) h = ground (arith, split_self sep s)

pub split-append :
    (sep : ℕ) (s t : Text) → contains sep s ≡ false → split sep (s ++ sep ∷ t) ≡ s ∷ split sep t
unfolding split
split-append sep [] t h = ground (arith, split-cons sep t)
split-append sep (c ∷ s) t h = ground (arith, split-append sep s t)

-- `char::is_whitespace`: the Unicode property White_Space
unfoldable pub is_whitespace : ℕ → Bool
is_whitespace c =
    (leb 9 c && leb c 13)
    || c == 0x20
    || c == 0x85
    || c == 0xa0
    || c == 0x1680
    || (leb 0x2000 c && leb c 0x200a)
    || c == 0x2028
    || c == 0x2029
    || c == 0x202f
    || c == 0x205f
    || c == 0x3000

-- `char::is_control`: the general category Cc
unfoldable pub is_control : ℕ → Bool
is_control c = leb c 0x1f || (leb 0x7f c && leb c 0x9f)

-- `char::len_utf8`
unfoldable pub len_utf8 : ℕ → ℕ
len_utf8 c = if ltb c 0x80 then 1 else if ltb c 0x800 then 2 else if ltb c 0x10000 then 3 else 4

-- `str::len`, in bytes
abbrev pub byte_len : Text → ℕ
byte_len [] = 0
byte_len (c ∷ s) = len_utf8 c + byte_len s

-- `trim_start` and `trim_end`
unfoldable pub trim_start : Text → Text
trim_start [] = []
trim_start (c ∷ s) = let rest = trim_start s in if is_whitespace c then rest else c ∷ s

unfoldable pub cons_unless_blank : ℕ → Text → Text
cons_unless_blank c [] = if is_whitespace c then [] else c ∷ []
cons_unless_blank c (d ∷ s) = c ∷ d ∷ s

unfoldable pub trim_end : Text → Text
unfolding cons_unless_blank
trim_end [] = []
trim_end (c ∷ s) = cons_unless_blank c (trim_end s)

unfoldable pub trim : Text → Text
trim s = trim_end (trim_start s)

-- `s.strip_prefix(p)`
unfoldable pub strip_prefix : Text → Text → Option Text
strip_prefix [] s = some s
strip_prefix (a ∷ p) [] = none
strip_prefix (a ∷ p) (b ∷ s) = if a == b then strip_prefix p s else none

pub strip_prefix-append : (p s : Text) → strip_prefix p (p ++ s) ≡ some s
unfolding strip_prefix
strip_prefix-append [] s = refl
strip_prefix-append (a ∷ p) s = ground (arith, strip_prefix-append p s)

-- `s.replace(c, with)`
unfoldable pub replace : ℕ → Text → Text → Text
replace c new [] = []
replace c new (d ∷ s) = (if d == c then new else d ∷ []) ++ replace c new s

pub replace_absent : (c : ℕ) (new s : Text) → contains c s ≡ false → replace c new s ≡ s
unfolding replace
replace_absent c new [] h = refl
replace_absent c new (d ∷ s) h = ground (arith, replace_absent c new s)

-- `parts.join(sep)`, for a separator of one character
unfoldable pub intercalate : ℕ → List Text → Text
intercalate sep [] = []
intercalate sep (p ∷ []) = p
intercalate sep (p ∷ q ∷ ps) = p ++ sep ∷ intercalate sep (q ∷ ps)

intercalate-consume :
    (sep c : ℕ) (p : Text) (ps : List Text)
    → intercalate sep (consume sep c (p ∷ ps)) ≡ c ∷ intercalate sep (p ∷ ps)
unfolding intercalate consume
intercalate-consume sep c p [] = ground arith
intercalate-consume sep c p (q ∷ ps) = ground arith

-- Joining the pieces gives the text back.
pub intercalate-split : (sep : ℕ) (s : Text) → intercalate sep (split sep s) ≡ s
unfolding split intercalate
intercalate-split sep [] = refl
intercalate-split sep (c ∷ s) =
    let (p, ps, e) = split-cons sep s in
    rw e (intercalate-consume sep c p ps ∙ ap (λ t. c ∷ t) (rw e at (intercalate-split sep s)))
