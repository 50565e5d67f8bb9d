-- ===== src/Log/Cleaner/Extension.antt =====
-- Names that end in `.log` (`Path::extension`, and its use in mcproc/src/daemon/log/cleaner.rs).
use mathlib.Core.List.{Memᴰ}
use mcproc.Prelude.{
  ◌↔◌, ℕ, ◌++◌, ◌==◌, ==_iff, codes, ◌≡◌, refl, sym, ap, ◌∙◌, inl, inr, Bool, true, List, [], ◌∷◌,
  any, Option, none, some, if◌then◌else◌, Text, text_eq, text_eq→eq, Bool-cases, arith,
}
use mcproc.Log.Cleaner.{is_log, extension, dot_extension, split_last_dot, behind_first}

pub split_last_dot-append :
    (s a : Text) → split_last_dot a ≡ none → split_last_dot (s ++ b'.' ∷ a) ≡ some (s, a)
unfolding split_last_dot behind_first
split_last_dot-append [] a h = rw h refl
split_last_dot-append (c ∷ s) a h = rw (split_last_dot-append s a h) refl

pair_parts :
    (b b' a a' : Text)
    → ◌≡◌ {A = Option (Text × Text)} (some (b, a)) (some (b', a'))
    → (b ≡ b') × (a ≡ a')
pair_parts b b' a a' h = (ap (λ o. first (or_pair o)) h, ap (λ o. second (or_pair o)) h)
  where
    or_pair : Option (Text × Text) → Text × Text
    or_pair none = (b, a)
    or_pair (some p) = p

    first : Text × Text → Text
    first p = p.0

    second : Text × Text → Text
    second p = p.1

-- A split gives the name again.
split_last_dot-whole : (s b a : Text) → split_last_dot s ≡ some (b, a) → s ≡ b ++ b'.' ∷ a
unfolding split_last_dot
split_last_dot-whole [] b a h = ground arith
split_last_dot-whole (c ∷ s) b a h = by_rest (split_last_dot-whole s) (split_last_dot s) refl h
  where
    here :
        (b a : Text)
        → c ≡ b'.'
        → ◌≡◌ {A = Option (Text × Text)} (some ([], s)) (some (b, a))
        → c ∷ s ≡ b ++ b'.' ∷ a
    here b a dot h =
        let (p, q) = pair_parts [] b s a h in (λ i. dot i ∷ q i) ∙ ap (λ t. t ++ b'.' ∷ a) p

    there :
        (b a b' a' : Text)
        → s ≡ b' ++ b'.' ∷ a'
        → ◌≡◌ {A = Option (Text × Text)} (some (c ∷ b', a')) (some (b, a))
        → c ∷ s ≡ b ++ b'.' ∷ a
    there b a b' a' w h =
        let (p, q) = pair_parts (c ∷ b') b a' a h in ap (λ t. c ∷ t) w ∙ (λ i. p i ++ b'.' ∷ q i)

    by_rest :
        ((b' a' : Text) → split_last_dot s ≡ some (b', a') → s ≡ b' ++ b'.' ∷ a')
        → (o : Option (Text × Text)) → split_last_dot s ≡ o
        → behind_first c o (if c == b'.' then some ([], s) else none) ≡ some (b, a)
        → c ∷ s ≡ b ++ b'.' ∷ a
    by_rest ih none e h = elim (Bool-cases (c == b'.')) [
      | inl dot ↦ here b a ((==_iff c b'.').0 dot) (rw dot at h)
      | inr other ↦ absurd (ground (arith, other))
    ]
    by_rest ih (some (b', a')) e h = there b a b' a' (ih b' a' e) h

-- The extension is `log` exactly if the name is something, and `.log` behind it.
pub is_log-extension :
    (name : Text)
    → (is_log (extension name) ≡ true)
      ↔ ((c : ℕ) × (stem : Text) × (name ≡ c ∷ stem ++ codes ".log"))
unfolding is_log extension dot_extension text_eq split_last_dot behind_first
is_log-extension name = (
  found (split_last_dot name) refl,
  λ (c, stem, e). rw (e, split_last_dot-append (c ∷ stem) (codes "log") refl) refl,
)
  where
    found :
        (o : Option (Text × Text))
        → split_last_dot name ≡ o
        → is_log (dot_extension o) ≡ true
        → (c : ℕ) × (stem : Text) × (name ≡ c ∷ stem ++ codes ".log")
    found none e h = absurd (ground arith)
    found (some ([], a)) e h = absurd (ground arith)
    found (some (c ∷ b, a)) e h = (
      c,
      b,
      split_last_dot-whole name (c ∷ b) a e
          ∙ ap (λ t. (c ∷ b) ++ b'.' ∷ t) (text_eq→eq a (codes "log") h),
    )

pub any-Memᴰ :
    {A : Type 0} (f : A → Bool) (xs : List A) → any f xs ≡ true → (x : A) × Memᴰ x xs × (f x ≡ true)
any-Memᴰ f [] h = absurd (ground arith)
any-Memᴰ f (x ∷ xs) h = elim (Bool-cases (f x)) [
  | inl e ↦ (x, Memᴰ.head refl, e)
  | inr e ↦ let (y, m, k) = any-Memᴰ f xs (ground arith) in (y, Memᴰ.tail m, k)
]

pub Memᴰ-any :
    {A : Type 0} (f : A → Bool) (xs : List A) (x : A) → Memᴰ x xs → f x ≡ true → any f xs ≡ true
Memᴰ-any f [] x m h = elim m [ ]
Memᴰ-any f (y ∷ xs) x (Memᴰ.head e) h = let k : f y ≡ true = sym (ap f e) ∙ h in ground arith
Memᴰ-any f (y ∷ xs) x (Memᴰ.tail m) h = ground (arith, Memᴰ-any f xs x m h)
