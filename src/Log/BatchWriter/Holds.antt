-- ===== src/Log/BatchWriter/Holds.antt =====
-- What a log file holds behind its writer (mcproc/src/daemon/log/batch_writer.rs).
use mcproc.Prelude.{
  Bool, ℕ, ◌≡◌, ◌≢◌, refl, sym, ap, ◌∙◌, ◌⊎◌, inl, inr, true, false, List, [], ◌∷◌, ◌++◌,
  if◌then◌else◌, Text, codes, arith, append-nil, append_assoc, Bool-cases, ==_iff,
}
use mcproc.Log.BatchWriter.{
  LogEntry, Event, entries, ends_with_newline, level, entry_text, batch_text, open_file,
  writer_task, writer_task_lem,
}
use mcproc.Log.ReadBack.{pop_last}
use mcproc.Log.ReadBack.Written.{line_text, entry_text-line, ends_with_newline-snoc}

-- What completes the last line of a file: nothing behind an empty file or a newline, and else a newline.
abbrev pub Completes : Text → Text → Type 0
Completes file gap =
    ((file ≡ []) × (gap ≡ []))
    ⊎ ((s : Text) × (file ≡ s ++ b'\n' ∷ []) × (gap ≡ []))
    ⊎ ((file ≢ []) × ((s : Text) → file ≢ s ++ b'\n' ∷ []) × (gap ≡ b'\n' ∷ []))

-- The entries as they are written: the time, the stream, the content without a newline at its end, and a
-- newline.
abbrev pub written : (ℕ → Text) → List LogEntry → Text
written format [] = []
written format (e ∷ es) =
    format e.timestamp
    ++ ((if e.is_stderr then codes " [ERROR] " else codes " [INFO] ")
        ++ (pop_last b'\n' e.content ++ b'\n' ∷ written format es))

by_last : (s : Text) → ends_with_newline s ≡ true → (t : Text) × (s ≡ t ++ b'\n' ∷ [])
unfolding ends_with_newline
by_last [] h = absurd (ground arith)
by_last (c ∷ []) h = ([], ap (λ (d : ℕ). d ∷ []) ((==_iff c b'\n').0 h))
by_last (c ∷ d ∷ s) h = let (t, e) = by_last (d ∷ s) h in (c ∷ t, ap (λ (r : Text). c ∷ r) e)

open_file-Completes :
    (file : Text) → (gap : Text) × Completes file gap × (open_file file ≡ file ++ gap)
unfolding open_file
open_file-Completes [] = ([], inl (refl, refl), refl)
open_file-Completes (c ∷ s) = elim (Bool-cases (ends_with_newline (c ∷ s))) [
  | inl e ↦
      let (t, same) = by_last (c ∷ s) e in
      ([], inr (inl (t, same, refl)), rw e (sym (append-nil (c ∷ s))))
  | inr e ↦ (
    b'\n' ∷ [],
    inr (inr (λ h. absurd (ground (arith, h)), λ t same. absurd (no_line e t same), refl)),
    rw e refl,
  )
]
  where
    no_line : ends_with_newline (c ∷ s) ≡ false → (t : Text) → c ∷ s ≡ t ++ b'\n' ∷ [] → ⊥
    no_line e t same =
        let ends = ap ends_with_newline same ∙ ends_with_newline-snoc t in ground (arith, e, ends)

tag : Bool → Text
tag is_stderr = if is_stderr then codes " [ERROR] " else codes " [INFO] "

level-tag : (b : Bool) (c : Text) → codes " [" ++ (level b ++ (codes "] " ++ c)) ≡ tag b ++ c
unfolding level tag
level-tag true c = refl
level-tag false c = refl

-- One entry, and what comes behind it.
entry_text-tag :
    (format : ℕ → Text) (e : LogEntry) (rest : Text)
    → entry_text format e ++ rest
      ≡ format e.timestamp ++ (tag e.is_stderr ++ (pop_last b'\n' e.content ++ b'\n' ∷ rest))
unfolding line_text
entry_text-tag format e rest =
    let t = format e.timestamp in
    let c = pop_last b'\n' e.content in
    let line : line_text format e c ≡ t ++ (tag e.is_stderr ++ c) =
      ap (λ r. t ++ r) (level-tag e.is_stderr c) in
    ap (λ x. x ++ rest) (entry_text-line format e)
    ∙ append_assoc (line_text format e c) (b'\n' ∷ []) rest
    ∙ ap (λ x. x ++ b'\n' ∷ rest) line
    ∙ append_assoc t (tag e.is_stderr ++ c) (b'\n' ∷ rest)
    ∙ ap (λ x. t ++ x) (append_assoc (tag e.is_stderr) c (b'\n' ∷ rest))

batch_text-written :
    (format : ℕ → Text) (es : List LogEntry) → batch_text format es ≡ written format es
unfolding batch_text tag
batch_text-written format [] = refl
batch_text-written format (e ∷ es) =
    entry_text-tag format e (batch_text format es)
    ∙ ap (λ r. format e.timestamp ++ (tag e.is_stderr ++ (pop_last b'\n' e.content ++ b'\n' ∷ r)))
        (batch_text-written format es)

-- The file behind the writer is the file that was opened, its last line completed by a newline unless it has
-- one, and then each entry that was sent, in order and once: its time, its stream, its content and one newline
-- at its end, whenever the timer ticks and however the batches fall.
pub writer_task-Holds :
    (format : ℕ → Text) (file : Text) (events : List Event)
    → (gap : Text) × Completes file gap
      × (writer_task format file events ≡ (file ++ gap) ++ written format (entries events))
writer_task-Holds format file events =
    let (gap, done, opened) = open_file-Completes file in
    (
      gap,
      done,
      writer_task_lem format file events
          ∙ (λ i. opened i ++ batch_text-written format (entries events) i),
    )
