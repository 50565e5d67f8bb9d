-- ===== src/Prelude/Last.antt =====
-- The last elements of a list, as a queue of bounded length holds them.
use Prim.Native.Nat.{ℕ, zero, suc, ◌-◌, ◌≤◌}
use mathlib.Core.Path.{◌≡◌, refl, sym, ap, ◌∙◌}
use mathlib.Core.Logic.{inl, inr}
use mathlib.Core.List.{List, [], ◌∷◌, ◌++◌}
use native.Mathlib.Omega.{arith}
use mcproc.Prelude.Tests.{leb, if◌then◌else◌, Bool-cases}
use mcproc.Prelude.Lists.{length, take, drop, length-append}

module _ {ℓ} {A : Type ℓ} where
  pub drop_one : (n : ℕ) (xs : List A) → drop 1 (drop n xs) ≡ drop (suc n) xs
  drop_one zero xs = refl
  drop_one (suc n) [] = refl
  drop_one (suc n) (x ∷ xs) = drop_one n xs

  pub drop-append : (n : ℕ) (xs ys : List A) → n ≤ length xs → drop n (xs ++ ys) ≡ drop n xs ++ ys
  drop-append zero xs ys h = refl
  drop-append (suc n) [] ys h = absurd (omega arith)
  drop-append (suc n) (x ∷ xs) ys h = drop-append n xs ys (omega arith)

  pub drop_all : (xs : List A) → drop (length xs) xs ≡ []
  drop_all [] = refl
  drop_all (x ∷ xs) = drop_all xs

  pub take-append : (n : ℕ) (xs ys : List A) → n ≡ length xs → take n (xs ++ ys) ≡ xs
  take-append zero [] ys h = refl
  take-append zero (x ∷ xs) ys h = absurd (omega arith)
  take-append (suc n) [] ys h = absurd (omega arith)
  take-append (suc n) (x ∷ xs) ys h = ap (λ t. x ∷ t) (take-append n xs ys (omega arith))

  -- The last `n` elements, all of them if there are fewer.
  abbrev pub last : ℕ → List A → List A
  last n xs = drop (length xs - n) xs

  pub last_none : (xs : List A) → last 0 xs ≡ []
  last_none xs = ap (λ (n : ℕ). drop n xs) (omega arith) ∙ drop_all xs

  pub last_nil : (n : ℕ) → last n [] ≡ []
  last_nil n = let e : 0 - n ≡ 0 = omega arith in ap (λ (k : ℕ). drop k []) e

  -- One more element behind a window that is full pushes its first one out.
  pub last-snoc :
      (n : ℕ) (x : A) (xs : List A)
      → 1 ≤ n
      → last n (xs ++ x ∷ [])
        ≡ (if leb n (length xs) then drop 1 (last n xs) else last n xs) ++ x ∷ []
  last-snoc n x xs h = elim (Bool-cases (leb n (length xs))) [
    | inl full ↦
        let m : length (xs ++ x ∷ []) - n ≡ suc (length xs - n) =
          ground (arith, length-append xs (x ∷ [])) in
        rw (full, m)
          (rw (drop-append (suc (length xs - n)) xs (x ∷ []) (ground arith))
            (ap (λ t. t ++ x ∷ []) (sym (drop_one (length xs - n) xs))))
    | inr room ↦
        let m : length (xs ++ x ∷ []) - n ≡ 0 = ground (arith, length-append xs (x ∷ [])) in
        let k : length xs - n ≡ 0 = ground arith in rw (room, m, k)
  ]
