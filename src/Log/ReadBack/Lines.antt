-- ===== src/Log/ReadBack/Lines.antt =====
-- The lines of a file and the loop that reads them (`next_line_lossy` of
-- mcproc/src/daemon/api/grpc/log_handlers.rs).
use mcproc.Prelude.{
  ℕ, zero, suc, ◌≤◌, ◌<◌, ◌≡◌, refl, sym, ap, ◌∙◌, inl, inr, true, false, List, [], ◌∷◌, ◌++◌, map,
  none, some, ◌==◌, if◌then◌else◌, length, Text, contains, Bool-cases, arith, ==_iff,
}
use mcproc.Log.ReadBack.{
  with_first, read_until_newline, pop_last, line_of, next_line, next_line_lossy, push_front,
  read_lines,
}
use mcproc.Log.BatchWriter.{ends_with_newline}

-- The lines of a file with their newlines.
unfoldable pub to_first : ℕ → List Text → List Text
to_first c [] = (c ∷ []) ∷ []
to_first c (l ∷ ls) = (c ∷ l) ∷ ls

unfoldable pub raw_lines : Text → List Text
unfolding to_first
raw_lines [] = []
raw_lines (c ∷ s) =
    let rest = raw_lines s in if c == b'\n' then (c ∷ []) ∷ rest else to_first c rest

read_until_newline_lem :
    (c : ℕ) (s : Text)
    → (line : Text) × (rest : Text) × (read_until_newline (c ∷ s) ≡ (c ∷ line, rest))
      × (raw_lines (c ∷ s) ≡ (c ∷ line) ∷ raw_lines rest)
      × (length rest ≤ length s)
unfolding read_until_newline with_first raw_lines
read_until_newline_lem c [] = elim (Bool-cases (c == b'\n')) [
  | inl e ↦ ([], [], rw e refl, rw e refl, omega arith)
  | inr e ↦ ([], [], rw e refl, rw e refl, omega arith)
]
read_until_newline_lem c (d ∷ t) = elim (Bool-cases (c == b'\n')) [
  | inl e ↦ ([], d ∷ t, rw e refl, rw e refl, omega arith)
  | inr e ↦
      let (line, rest, r, w, short) = read_until_newline_lem d t in
      (d ∷ line, rest, rw e (ap (with_first c) r), rw e (ap (to_first c) w), omega (arith, short))
]

-- With more rounds than bytes a loop sees all lines.
pub read_lines_lem :
    (lossy : Text → Text) (fuel : ℕ) (file : Text)
    → length file < fuel
    → read_lines lossy fuel file ≡ some (map (line_of lossy) (raw_lines file))
unfolding read_lines next_line_lossy next_line push_front
read_lines_lem lossy zero file h = absurd (omega arith)
read_lines_lem lossy (suc fuel) [] h = unfold read_until_newline in unfold raw_lines in refl
read_lines_lem lossy (suc fuel) (c ∷ s) h =
    let (line, rest, r, w, short) = read_until_newline_lem c s in
    rw w (
      ap
        (λ p. elim (next_line lossy p) [
          | none ↦ some []
          | some (line, rest) ↦ push_front line (read_lines lossy fuel rest)
        ])
        r
      ∙ ap (push_front (line_of lossy (c ∷ line)))
          (read_lines_lem lossy fuel rest (omega (arith, short))))

pub raw_lines-line :
    (l t : Text)
    → contains b'\n' l ≡ false
    → raw_lines (l ++ b'\n' ∷ t) ≡ (l ++ b'\n' ∷ []) ∷ raw_lines t
unfolding raw_lines
raw_lines-line [] t h = refl
raw_lines-line (c ∷ l) t h =
    let other : (c == b'\n') ≡ false = ground arith in
    rw other (ap (to_first c) (raw_lines-line l t (ground arith)))

-- A file whose last line is complete.
pub raw_lines-append :
    (c : ℕ) (s t : Text)
    → ends_with_newline (c ∷ s) ≡ true
    → raw_lines (c ∷ s ++ t) ≡ raw_lines (c ∷ s) ++ raw_lines t
unfolding raw_lines ends_with_newline
raw_lines-append c [] t h = rw h refl
raw_lines-append c (d ∷ s) t h =
    let (line, rest, r, w, short) = read_until_newline_lem d s in
    let more = raw_lines-append d s t h in
    elim (Bool-cases (c == b'\n')) [
      | inl e ↦ rw e (ap (λ ls. (c ∷ []) ∷ ls) more)
      | inr e ↦ rw e (
          ap (to_first c) (more ∙ ap (λ ls. ls ++ raw_lines t) w)
          ∙ ap (λ ls. to_first c ls ++ raw_lines t) (sym w))
    ]

-- The newline that completes a last line changes only that line.
pub raw_lines_complete :
    (c : ℕ) (s : Text)
    → ends_with_newline (c ∷ s) ≡ false
    → (init : List Text) × (l : Text) × (raw_lines (c ∷ s) ≡ init ++ l ∷ [])
      × (raw_lines (c ∷ s ++ b'\n' ∷ []) ≡ init ++ (l ++ b'\n' ∷ []) ∷ [])
      × (pop_last b'\n' l ≡ l)
unfolding raw_lines ends_with_newline pop_last
raw_lines_complete c [] h = ([], c ∷ [], rw h refl, rw h refl, rw h refl)
raw_lines_complete c (d ∷ s) h =
    let (init, l, e, e', p) = raw_lines_complete d s h in
    elim (Bool-cases (c == b'\n')) [
      | inl n ↦ (
        (c ∷ []) ∷ init,
        l,
        rw n (ap (λ ls. (c ∷ []) ∷ ls) e),
        rw n (ap (λ ls. (c ∷ []) ∷ ls) e'),
        p,
      )
      | inr n ↦ go n init l e e' p
    ]
  where
    go :
        (c == b'\n') ≡ false
        → (init : List Text) (l : Text) → raw_lines (d ∷ s) ≡ init ++ l ∷ []
        → raw_lines (d ∷ s ++ b'\n' ∷ []) ≡ init ++ (l ++ b'\n' ∷ []) ∷ []
        → pop_last b'\n' l ≡ l
        → (init : List Text) × (l : Text) × (raw_lines (c ∷ d ∷ s) ≡ init ++ l ∷ [])
          × (raw_lines (c ∷ d ∷ s ++ b'\n' ∷ []) ≡ init ++ (l ++ b'\n' ∷ []) ∷ [])
          × (pop_last b'\n' l ≡ l)
    go n [] [] e e' p = ([], c ∷ [], rw n (ap (to_first c) e), rw n (ap (to_first c) e'), rw n refl)
    go n [] (x ∷ l) e e' p =
        ([], c ∷ x ∷ l, rw n (ap (to_first c) e), rw n (ap (to_first c) e'), ap (λ t. c ∷ t) p)
    go n (i ∷ is) l e e' p =
        ((c ∷ i) ∷ is, l, rw n (ap (to_first c) e), rw n (ap (to_first c) e'), p)

pub pop_last-snoc : (c : ℕ) (s : Text) → pop_last c (s ++ c ∷ []) ≡ s
unfolding pop_last
pop_last-snoc c [] = let e : (c == c) ≡ true = (==_iff c c).1 refl in rw e refl
pop_last-snoc c (d ∷ []) = ap (λ t. d ∷ t) (pop_last-snoc c [])
pop_last-snoc c (d ∷ e ∷ s) = ap (λ t. d ∷ t) (pop_last-snoc c (e ∷ s))

pub pop_last-append : (c d : ℕ) (p s : Text) → pop_last c (p ++ d ∷ s) ≡ p ++ pop_last c (d ∷ s)
unfolding pop_last
pop_last-append c d [] s = refl
pop_last-append c d (x ∷ []) s = refl
pop_last-append c d (x ∷ y ∷ p) s = ap (λ t. x ∷ t) (pop_last-append c d (y ∷ p) s)

pub completed_content :
    (s : Text)
    → s ++ (if ends_with_newline s then [] else b'\n' ∷ []) ≡ pop_last b'\n' s ++ b'\n' ∷ []
unfolding pop_last ends_with_newline
completed_content [] = refl
completed_content (c ∷ []) = elim (Bool-cases (c == b'\n')) [
  | inl e ↦ rw e (ap (λ x. x ∷ []) ((==_iff c b'\n').0 e))
  | inr e ↦ rw e refl
]
completed_content (c ∷ d ∷ s) = ap (λ t. c ∷ t) (completed_content (d ∷ s))
