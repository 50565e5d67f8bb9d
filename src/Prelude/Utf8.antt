-- ===== src/Prelude/Utf8.antt =====
-- `std::str::from_utf8`: the code points of bytes, if they are well-formed UTF-8 (Unicode, table 3-7).
use Prim.Native.Nat.{ℕ, ◌+◌, ◌-◌, ◌*◌}
use mathlib.Core.Bool.{Bool, true, false, ◌&&◌}
use mathlib.Core.List.{[], ◌∷◌}
use mathlib.Core.Option
use mathlib.Core.Option.{Option, none, some}
use mcproc.Prelude.Tests.{leb, ◌==◌, if◌then◌else◌}
use mcproc.Prelude.Strings.{Text}

within : ℕ → ℕ → ℕ → Bool
within lo hi b = leb lo b && leb b hi

-- `10xxxxxx`
is_tail : ℕ → Bool
unfolding within
is_tail b = within 0x80 0xbf b

-- The least and the greatest second byte behind the lead `a` of three bytes, or of four.
second3 : ℕ → ℕ → Bool
unfolding within
second3 a b =
    if a == 0xe0
    then within 0xa0 0xbf b
    else if a == 0xed
    then within 0x80 0x9f b
    else within 0x80 0xbf b

second4 : ℕ → ℕ → Bool
unfolding within
second4 a b =
    if a == 0xf0
    then within 0x90 0xbf b
    else if a == 0xf4
    then within 0x80 0x8f b
    else within 0x80 0xbf b

-- A code point in front, if the test passes.
put : Bool → ℕ → Option Text → Option Text
put true c rest = Option.map (λ s. c ∷ s) rest
put false c rest = none

bits2 : ℕ → ℕ → ℕ
bits2 a b = (a - 0xc0) * 64 + (b - 0x80)

bits3 : ℕ → ℕ → ℕ → ℕ
bits3 a b c = (a - 0xe0) * 4096 + (b - 0x80) * 64 + (c - 0x80)

bits4 : ℕ → ℕ → ℕ → ℕ → ℕ
bits4 a b c d = (a - 0xf0) * 262144 + (b - 0x80) * 4096 + (c - 0x80) * 64 + (d - 0x80)

-- How many bytes the lead announces; 0 for none.
width : ℕ → ℕ
unfolding within
width a =
    if leb a 0x7f
    then 1
    else if within 0xc2 0xdf a
    then 2
    else if within 0xe0 0xef a
    then 3
    else if within 0xf0 0xf4 a
    then 4
    else 0

unfoldable pub from_utf8 : Text → Option Text
unfolding width is_tail second3 second4 put bits2 bits3 bits4
from_utf8 [] = some []
from_utf8 (a ∷ []) = put (width a == 1) a (some [])
from_utf8 (a ∷ b ∷ []) =
    let one = put true a (from_utf8 (b ∷ [])) in
    let two = put (is_tail b) (bits2 a b) (some []) in
    if width a == 1 then one else if width a == 2 then two else none
from_utf8 (a ∷ b ∷ c ∷ []) =
    let one = put true a (from_utf8 (b ∷ c ∷ [])) in
    let two = put (is_tail b) (bits2 a b) (from_utf8 (c ∷ [])) in
    let three = put (second3 a b && is_tail c) (bits3 a b c) (some []) in
    if width a == 1 then one else if width a == 2 then two else if width a == 3 then three else none
from_utf8 (a ∷ b ∷ c ∷ d ∷ s) =
    let one = put true a (from_utf8 (b ∷ c ∷ d ∷ s)) in
    let two = put (is_tail b) (bits2 a b) (from_utf8 (c ∷ d ∷ s)) in
    let three = put (second3 a b && is_tail c) (bits3 a b c) (from_utf8 (d ∷ s)) in
    let four = put (second4 a b && is_tail c && is_tail d) (bits4 a b c d) (from_utf8 s) in
    if width a == 1
    then one
    else if width a == 2
    then two
    else if width a == 3
    then three
    else if width a == 4
    then four
    else none
