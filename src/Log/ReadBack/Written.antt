-- ===== src/Log/ReadBack/Written.antt =====
-- What is read of a log file that the writer has written (mcproc/src/daemon/log/batch_writer.rs,
-- mcproc/src/daemon/api/grpc/log_handlers.rs).
use mcproc.Prelude.{
  ℕ, ◌≤◌, ◌<◌, ◌≡◌, refl, sym, ap, ◌∙◌, inl, inr, Bool, true, false, List, [], ◌∷◌, ◌++◌, map,
  Option, some, ◌==◌, length, length-append, Text, codes, contains, any, any-append, append_assoc,
  Bool-cases, arith,
}
use mathlib.Core.List.{map-append}
use mcproc.Log.ReadBack.{pop_last, line_of, read_lines}
use mcproc.Log.ReadBack.Lines.{
  raw_lines, read_lines_lem, raw_lines-line, raw_lines-append, raw_lines_complete, pop_last-snoc,
  pop_last-append, completed_content,
}
use mcproc.Log.BatchWriter.{
  LogEntry, Event, entries, level, ends_with_newline, entry_text, batch_text, open_file,
  writer_task, writer_task_lem,
}
use mcproc.Log.Reader.{LogLevel, parse_log_line, level_stream, parse_log_line_written}

-- The content without a newline and then a carriage return at its end.
unfoldable pub shown : Text → Text
shown content = pop_last b'\r' (pop_last b'\n' content)

-- The line of an entry whose content is `content`.
unfoldable pub line_text : (ℕ → Text) → LogEntry → Text → Text
line_text format e content =
    format e.timestamp ++ (codes " [" ++ (level e.is_stderr ++ (codes "] " ++ content)))

-- The content of each entry is one line, and is UTF-8, which is to say that `lossy` changes nothing.
abbrev pub IsReadable : (Text → Text) → (ℕ → Text) → List LogEntry → Type 0
IsReadable lossy format [] = Unit
IsReadable lossy format (e ∷ es) =
    (contains b'\n' (pop_last b'\n' e.content) ≡ false)
    × (lossy (line_text format e (shown e.content)) ≡ line_text format e (shown e.content))
    × IsReadable lossy format es

pub entry_text-line :
    (format : ℕ → Text) (e : LogEntry)
    → entry_text format e ≡ line_text format e (pop_last b'\n' e.content) ++ b'\n' ∷ []
unfolding entry_text line_text
entry_text-line format e =
    let t = format e.timestamp in
    let c = pop_last b'\n' e.content in
    ap (λ c. t ++ (codes " [" ++ (level e.is_stderr ++ (codes "] " ++ c))))
      (completed_content e.content)
    ∙ sym (
        append_assoc t (codes " [" ++ (level e.is_stderr ++ (codes "] " ++ c))) (b'\n' ∷ [])
        ∙ ap (λ r. t ++ (codes " [" ++ r))
            (append_assoc (level e.is_stderr) (codes "] " ++ c) (b'\n' ∷ [])))

pop_last-blank :
    (c : ℕ) (s : Text) → (b' ' == c) ≡ false → pop_last c (b' ' ∷ s) ≡ b' ' ∷ pop_last c s
unfolding pop_last
pop_last-blank c [] h = rw h refl
pop_last-blank c (d ∷ s) h = refl

line_text-shown :
    (format : ℕ → Text) (e : LogEntry) (s : Text)
    → pop_last b'\r' (line_text format e s) ≡ line_text format e (pop_last b'\r' s)
unfolding line_text pop_last
line_text-shown format e s =
    let lvl = level e.is_stderr in
    pop_last-append b'\r' b' ' (format e.timestamp) (b'[' ∷ (lvl ++ (codes "] " ++ s)))
    ∙ ap (λ r. format e.timestamp ++ b' ' ∷ r)
        (pop_last-append b'\r' b']' (b'[' ∷ lvl) (b' ' ∷ s)
          ∙ ap (λ r. b'[' ∷ (lvl ++ b']' ∷ r)) (pop_last-blank b'\r' s refl))

line_text-one_line :
    (format : ℕ → Text) (e : LogEntry) (s : Text)
    → contains b'\n' (format e.timestamp) ≡ false
    → contains b'\n' s ≡ false
    → contains b'\n' (line_text format e s) ≡ false
unfolding line_text level
line_text-one_line format e s t h =
    any-append (λ c. c == b'\n') (format e.timestamp)
      (codes " [" ++ (level e.is_stderr ++ (codes "] " ++ s)))
    ∙ rw t (by_level e.is_stderr)
  where
    by_level : (b : Bool) → any (λ c. c == b'\n') (level b ++ (codes "] " ++ s)) ≡ false
    by_level true = h
    by_level false = h

-- The lines of a batch, each with its newline.
batch_text-raw_lines :
    (lossy : Text → Text) (format : ℕ → Text) (es : List LogEntry)
    → ((t : ℕ) → contains b'\n' (format t) ≡ false)
    → IsReadable lossy format es
    → map (line_of lossy) (raw_lines (batch_text format es))
      ≡ map (λ e. line_text format e (shown e.content)) es
unfolding batch_text line_of shown
batch_text-raw_lines lossy format [] stamps readable = unfold raw_lines in refl
batch_text-raw_lines lossy format (e ∷ es) stamps (one_line, utf8, rest) =
    let l = line_text format e (pop_last b'\n' e.content) in
    let text : entry_text format e ++ batch_text format es ≡ l ++ b'\n' ∷ batch_text format es =
      ap (λ t. t ++ batch_text format es) (entry_text-line format e)
      ∙ append_assoc l (b'\n' ∷ []) (batch_text format es) in
    let first : line_of lossy (l ++ b'\n' ∷ []) ≡ line_text format e (shown e.content) =
      ap (λ t. lossy (pop_last b'\r' t)) (pop_last-snoc b'\n' l)
      ∙ ap lossy (line_text-shown format e (pop_last b'\n' e.content))
      ∙ utf8 in
    ap (λ t. map (line_of lossy) (raw_lines t)) text
    ∙ ap (map (line_of lossy)) (
        raw_lines-line l (batch_text format es)
          (line_text-one_line format e (pop_last b'\n' e.content) (stamps e.timestamp) one_line))
    ∙ (λ i. first i ∷ batch_text-raw_lines lossy format es stamps rest i)

pub ends_with_newline-snoc : (s : Text) → ends_with_newline (s ++ b'\n' ∷ []) ≡ true
unfolding ends_with_newline
ends_with_newline-snoc [] = refl
ends_with_newline-snoc (c ∷ []) = refl
ends_with_newline-snoc (c ∷ d ∷ s) = ends_with_newline-snoc (d ∷ s)

length-open_file : (file : Text) → length file ≤ length (open_file file)
unfolding open_file
length-open_file file = ground (arith, length-append file (b'\n' ∷ []))

-- Opening a file completes its last line, and the lines of what is written come behind its lines.
open_file-lines :
    (lossy : Text → Text) (file t : Text)
    → map (line_of lossy) (raw_lines (open_file file ++ t))
      ≡ map (line_of lossy) (raw_lines file) ++ map (line_of lossy) (raw_lines t)
unfolding open_file
open_file-lines lossy [] t = unfold raw_lines in refl
open_file-lines lossy (c ∷ s) t = elim (Bool-cases (ends_with_newline (c ∷ s))) [
  | inl e ↦ rw e (
      ap (map (line_of lossy)) (raw_lines-append c s t e)
      ∙ map-append (line_of lossy) (raw_lines (c ∷ s)) (raw_lines t))
  | inr e ↦
      let (init, l, plain, done, p) = raw_lines_complete c s e in
      let last : line_of lossy (l ++ b'\n' ∷ []) ≡ line_of lossy l =
        unfold line_of in ap (λ r. lossy (pop_last b'\r' r)) (pop_last-snoc b'\n' l ∙ sym p) in
      let same : map (line_of lossy) (raw_lines (c ∷ s ++ b'\n' ∷ []))
          ≡ map (line_of lossy) (raw_lines (c ∷ s)) =
        ap (map (line_of lossy)) done
        ∙ map-append (line_of lossy) init ((l ++ b'\n' ∷ []) ∷ [])
        ∙ ap (λ x. map (line_of lossy) init ++ x ∷ []) last
        ∙ sym (ap (map (line_of lossy)) plain ∙ map-append (line_of lossy) init (l ∷ [])) in
      rw e (
        ap (map (line_of lossy))
          (raw_lines-append c (s ++ b'\n' ∷ []) t (ends_with_newline-snoc (c ∷ s)))
        ∙ map-append (line_of lossy) (raw_lines (c ∷ s ++ b'\n' ∷ [])) (raw_lines t)
        ∙ ap (λ ls. ls ++ map (line_of lossy) (raw_lines t)) same)
]

-- What a query gets of an entry.
abbrev pub answer : {T : Type 0} → (ℕ → T) → LogEntry → Option T × LogLevel × Text
answer time e = (some (time e.timestamp), level_stream e.is_stderr, shown e.content)

-- A log file, read after the writer has ended: the lines are those that the file had before, a last line
-- without a newline included, and then one for each entry that was sent, in order; each of these is parsed
-- to the time, the stream and the content of its entry. The text of a time has no space and no newline and
-- is parsed to that time; a content is one line of UTF-8, with a line end or without.
pub writer_task-read_lines :
    {T : Type 0} (lossy : Text → Text) (parse_time : Text → Option T) (time : ℕ → T)
    (format : ℕ → Text) (file : Text) (events : List Event) (fuel : ℕ)
    → ((t : ℕ) → contains b' ' (format t) ≡ false)
    → ((t : ℕ) → contains b'\n' (format t) ≡ false)
    → ((t : ℕ) → parse_time (format t) ≡ some (time t))
    → IsReadable lossy format (entries events)
    → length (writer_task format file events) < fuel
    → (old : List Text) × (new : List Text) × (read_lines lossy fuel file ≡ some old)
      × (read_lines lossy fuel (writer_task format file events) ≡ some (old ++ new))
      × (map (parse_log_line parse_time) new ≡ map (answer time) (entries events))
writer_task-read_lines lossy parse_time time format file events fuel no_space no_newline parses
      readable enough =
    let es = entries events in
    let whole = writer_task_lem format file events in
    (
      map (line_of lossy) (raw_lines file),
      map (λ e. line_text format e (shown e.content)) es,
      read_lines_lem lossy fuel file (shorter enough),
      read_lines_lem lossy fuel (writer_task format file events) enough
          ∙ ap some (
              ap (λ t. map (line_of lossy) (raw_lines t)) whole
              ∙ open_file-lines lossy file (batch_text format es)
              ∙ ap (λ ls. map (line_of lossy) (raw_lines file) ++ ls)
                  (batch_text-raw_lines lossy format es no_newline readable)),
      parsed es,
    )
  where
    shorter : length (writer_task format file events) < fuel → length file < fuel
    shorter enough = omega (
      arith,
      length-open_file file,
      length-append (open_file file) (batch_text format (entries events)),
      ap (length {A = ℕ}) (writer_task_lem format file events),
    )

    parsed :
        (es : List LogEntry)
        → map (parse_log_line parse_time) (map (λ e. line_text format e (shown e.content)) es)
          ≡ map (answer time) es
    parsed [] = refl
    parsed (e ∷ es) = λ i. one i ∷ parsed es i
      where
        one : parse_log_line parse_time (line_text format e (shown e.content)) ≡ answer time e
        one =
            unfold line_text in
            parse_log_line_written parse_time format (time e.timestamp)
              (record e { content = shown e.content }) (no_space e.timestamp) (parses e.timestamp)
