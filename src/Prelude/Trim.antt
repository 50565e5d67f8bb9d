-- ===== src/Prelude/Trim.antt =====
-- What `trim` leaves alone: text whose first and last characters are no white space.
use Prim.Native.Nat.{ℕ, suc, ◌≤◌}
use mathlib.Core.Path.{◌≡◌, refl, sym, ap, ◌∙◌}
use mathlib.Core.Logic.{◌⊎◌, inl, inr}
use mathlib.Core.Bool.{false}
use mathlib.Core.List.{List, [], ◌∷◌, ◌++◌}
use native.Mathlib.Omega.{arith}
use mcproc.Prelude.Tests.{if◌then◌else◌, Bool-cases}
use mcproc.Prelude.Lists.{length, length-append}
use mcproc.Prelude.Strings.{Text, is_whitespace, trim_start, trim_end, trim, cons_unless_blank}

-- The last element of a list that is not empty.
pub snoc_cases {ℓ} :
    {A : Type ℓ} (xs : List A) → (xs ≡ []) ⊎ ((s : List A) × (c : A) × (xs ≡ s ++ c ∷ []))
snoc_cases [] = inl refl
snoc_cases (x ∷ xs) = inr (elim (snoc_cases xs) [
  | inl e ↦ ([], x, ap (λ t. x ∷ t) e)
  | inr (s, c, e) ↦ (x ∷ s, c, ap (λ t. x ∷ t) e)
])

pub length-trim_start : (s : Text) → length (trim_start s) ≤ length s
unfolding trim_start
length-trim_start [] = omega arith
length-trim_start (c ∷ s) = ground (arith, length-trim_start s)

length-cons_unless_blank : (c : ℕ) (s : Text) → length (cons_unless_blank c s) ≤ suc (length s)
unfolding cons_unless_blank
length-cons_unless_blank c [] = ground arith
length-cons_unless_blank c (d ∷ s) = omega arith

pub length-trim_end : (s : Text) → length (trim_end s) ≤ length s
unfolding trim_end
length-trim_end [] = omega arith
length-trim_end (c ∷ s) = omega (arith, length-trim_end s, length-cons_unless_blank c (trim_end s))

-- `trim_end` drops a last character that is blank, and keeps the text otherwise.
pub trim_end-append :
    (s : Text) (c : ℕ)
    → trim_end (s ++ c ∷ []) ≡ (if is_whitespace c then trim_end s else s ++ c ∷ [])
unfolding trim_end
trim_end-append [] c = refl
trim_end-append (d ∷ s) c = elim (Bool-cases (is_whitespace c)) [
  | inl blank ↦ rw (trim_end-append s c, blank)
  | inr ink ↦ rw (trim_end-append s c, ink) (cons_append d s c)
]
  where
    cons_append : (d : ℕ) (s : Text) (c : ℕ) → cons_unless_blank d (s ++ c ∷ []) ≡ d ∷ s ++ c ∷ []
    cons_append d [] c = refl
    cons_append d (e ∷ s) c = refl

pub trim_ends : (c : ℕ) (s : Text) → trim_end (s ++ c ∷ []) ≡ s ++ c ∷ [] → is_whitespace c ≡ false
trim_ends c s h = elim (Bool-cases (is_whitespace c)) [
  | inr ink ↦ ink
  | inl blank ↦ absurd (
      omega (
        arith,
        length-trim_end s,
        length-append {0} s (c ∷ []),
        ap length (rw (trim_end-append s c, blank) at h),
      ))
]

pub trim_start_whole : (s : Text) → length s ≤ length (trim_start s) → trim_start s ≡ s
unfolding trim_start
trim_start_whole [] h = refl
trim_start_whole (c ∷ s) h = ground (arith, length-trim_start s)

pub trim_starts : (c : ℕ) (s : Text) → trim_start (c ∷ s) ≡ c ∷ s → is_whitespace c ≡ false
unfolding trim_start
trim_starts c s h = ground (arith, length-trim_start s, ap length h)

-- `trim` gives back the whole text exactly where `trim_start` and `trim_end` both do.
pub trim_whole : (s : Text) → trim s ≡ s → (trim_start s ≡ s) × (trim_end s ≡ s)
unfolding trim
trim_whole s h = (starts, ap trim_end (sym starts) ∙ h)
  where
    starts : trim_start s ≡ s
    starts =
        trim_start_whole s
          (omega (arith, ap length h, length-trim_start s, length-trim_end (trim_start s)))

starts_ink :
    (s : Text) → ((c : ℕ) (t : Text) → s ≡ c ∷ t → is_whitespace c ≡ false) → trim_start s ≡ s
unfolding trim_start
starts_ink [] first = refl
starts_ink (c ∷ s) first = rw (first c s refl)

ends_ink :
    (s : Text) → ((c : ℕ) (t : Text) → s ≡ t ++ c ∷ [] → is_whitespace c ≡ false) → trim_end s ≡ s
unfolding trim_end
ends_ink s last = elim (snoc_cases s) [
  | inl e ↦ rw e
  | inr (t, c, e) ↦ rw e (rw (trim_end-append t c, last c t e))
]

pub trim_of_edges :
    (s : Text)
    → ((c : ℕ) (t : Text) → s ≡ c ∷ t → is_whitespace c ≡ false)
    → ((c : ℕ) (t : Text) → s ≡ t ++ c ∷ [] → is_whitespace c ≡ false)
    → trim s ≡ s
unfolding trim
trim_of_edges s first last = rw (starts_ink s first) (ends_ink s last)
