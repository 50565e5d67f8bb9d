-- ===== src/Prelude/Numerals.antt =====
-- Words and decimal numbers in text, as the standard library of Rust reads them.
use Prim.Native.Nat.{ℕ, ◌+◌, ◌-◌, ◌*◌}
use mathlib.Core.Bool.{Bool, ◌&&◌}
use mathlib.Core.List.{List, [], ◌∷◌}
use mathlib.Core.Option.{Option, none, some}
use mcproc.Prelude.Tests.{leb, ◌==◌, if◌then◌else◌}
use mcproc.Prelude.Strings.{Text, is_whitespace}

flush : List ℕ → List Text → List Text
flush [] words = words
flush (c ∷ w) words = (c ∷ w) ∷ words

-- The word that the text begins with, perhaps empty, and the words behind it.
fields : Text → Text × List Text
unfolding flush
fields [] = ([], [])
fields (c ∷ s) =
    let (w, words) = fields s in if is_whitespace c then ([], flush w words) else (c ∷ w, words)

-- `s.split_whitespace()`
unfoldable pub split_whitespace : Text → List Text
unfolding fields
split_whitespace s = let (w, words) = fields s in flush w words

unfoldable pub is_digit : ℕ → Bool
is_digit c = leb b'0' c && leb c b'9'

-- The digits behind a number `n`, while it is at most `limit`.
parse_digits : ℕ → ℕ → Text → Option ℕ
unfolding is_digit
parse_digits limit n [] = some n
parse_digits limit n (c ∷ s) =
    let m = n * 10 + (c - b'0') in
    let rest = parse_digits limit m s in
    if is_digit c then (if leb m limit then rest else none) else none

parse_unsigned : ℕ → Text → Option ℕ
unfolding parse_digits
parse_unsigned limit [] = none
parse_unsigned limit (c ∷ s) = parse_digits limit 0 (c ∷ s)

-- `s.parse()` at an unsigned type whose greatest value is `limit`; one `+` may stand in front.
unfoldable pub parse_nat : ℕ → Text → Option ℕ
unfolding parse_unsigned
parse_nat limit [] = none
parse_nat limit (c ∷ s) = if c == b'+' then parse_unsigned limit s else parse_unsigned limit (c ∷ s)

abbrev pub u16_max : ℕ
u16_max = 65535

abbrev pub u32_max : ℕ
u32_max = 4294967295
