-- ===== src/Log/BatchWriter.antt =====
-- The writer of log files (mcproc/src/daemon/log/batch_writer.rs): entries are collected and written in
-- batches. The text of a timestamp is a function, of the `chrono` crate; no write fails.
pub mod Holds
use mcproc.Prelude.{
  ℕ, ◌≡◌, refl, sym, ap, ◌∙◌, inl, inr, Bool, false, List, [], ◌∷◌, ◌++◌, leb, ◌==◌, if◌then◌else◌,
  length, is_empty, Text, codes, append-nil, append_assoc, Bool-cases,
}

-- WRITE_BATCH_SIZE
abbrev pub write_batch_size : ℕ
write_batch_size = 100

pub record LogEntry : Type 0 where
  pub timestamp : ℕ
  pub content : Text
  pub is_stderr : Bool

-- `ends_with(b"\n")`, also the test of the last byte of a file.
unfoldable pub ends_with_newline : Text → Bool
ends_with_newline [] = false
ends_with_newline (b ∷ []) = b == b'\n'
ends_with_newline (b ∷ c ∷ s) = ends_with_newline (c ∷ s)

unfoldable pub level : Bool → Text
level is_stderr = if is_stderr then codes "ERROR" else codes "INFO"

-- What an entry becomes in the file.
unfoldable pub entry_text : (ℕ → Text) → LogEntry → Text
unfolding ends_with_newline level
entry_text format e =
    format e.timestamp
    ++ (codes " ["
        ++ (level e.is_stderr
            ++ (codes "] "
                ++ (e.content ++ (if ends_with_newline e.content then [] else b'\n' ∷ [])))))

unfoldable pub batch_text : (ℕ → Text) → List LogEntry → Text
unfolding entry_text
batch_text format [] = []
batch_text format (e ∷ es) = entry_text format e ++ batch_text format es

pub record Writer : Type 0 where
  pub file : Text
  pub batch : List LogEntry

unfoldable pub flush_batch : (ℕ → Text) → Writer → Writer
unfolding batch_text
flush_batch format w =
    if is_empty w.batch
    then w
    else record { file = w.file ++ batch_text format w.batch; batch = [] }

-- A file whose last line is not complete gets a newline when it is opened.
unfoldable pub open_file : Text → Text
unfolding ends_with_newline
open_file file =
    if is_empty file then file else if ends_with_newline file then file else file ++ b'\n' ∷ []

-- What `tokio::select!` wakes up for.
pub data Event : Type 0 where
  entry : LogEntry → Event
  tick : Event

unfoldable pub on_event : (ℕ → Text) → Event → Writer → Writer
unfolding flush_batch
on_event format (entry e) w =
    let v = record w { batch = w.batch ++ e ∷ [] } in
    if leb write_batch_size (length v.batch) then flush_batch format v else v
on_event format tick w = flush_batch format w

-- The loop until the channel is closed, and the last flush.
unfoldable pub run : (ℕ → Text) → List Event → Writer → Writer
unfolding on_event flush_batch
run format [] w = flush_batch format w
run format (e ∷ es) w = run format es (on_event format e w)

-- `writer_task`
unfoldable pub writer_task : (ℕ → Text) → Text → List Event → Text
unfolding run open_file
writer_task format file events =
    (run format events (record { file = open_file file; batch = [] })).file

-- The entries that were sent, in order.
abbrev pub entries : List Event → List LogEntry
entries [] = []
entries (entry e ∷ es) = e ∷ entries es
entries (tick ∷ es) = entries es

module _ (format : ℕ → Text) where
  batch_text-append :
      (es fs : List LogEntry)
      → batch_text format (es ++ fs) ≡ batch_text format es ++ batch_text format fs
  unfolding batch_text
  batch_text-append [] fs = refl
  batch_text-append (e ∷ es) fs =
      rw (batch_text-append es fs)
        (sym (append_assoc (entry_text format e) (batch_text format es) (batch_text format fs)))

  -- What the file will hold, once the batch is written.
  coming : Writer → Text
  coming w = w.file ++ batch_text format w.batch

  flush_batch-file : (w : Writer) → (flush_batch format w).file ≡ coming w
  unfolding flush_batch coming
  flush_batch-file w = empty w.batch
    where
      empty :
          (b : List LogEntry)
          → (if is_empty b
              then record w { batch = b }
              else record { file = w.file ++ batch_text format b; batch = [] }).file
            ≡ w.file ++ batch_text format b
      empty [] = unfold batch_text in sym (append-nil w.file)
      empty (e ∷ es) = refl

  flush_batch-coming : (w : Writer) → coming (flush_batch format w) ≡ coming w
  unfolding flush_batch coming batch_text
  flush_batch-coming w = elim (Bool-cases (is_empty w.batch)) [
    | inl e ↦ rw e
    | inr e ↦ rw e (append-nil _)
  ]

  push-coming :
      (e : LogEntry) (w : Writer)
      → coming (record w { batch = w.batch ++ e ∷ [] }) ≡ coming w ++ entry_text format e
  unfolding coming
  push-coming e w = rw (batch_text-append w.batch (e ∷ [])) (
      sym (append_assoc w.file (batch_text format w.batch) (batch_text format (e ∷ [])))
      ∙ ap (λ t. coming w ++ t) (unfold batch_text in append-nil (entry_text format e)))

  entry-coming :
      (e : LogEntry) (w : Writer)
      → coming (on_event format (entry e) w) ≡ coming w ++ entry_text format e
  unfolding on_event
  entry-coming e w = elim (Bool-cases (leb write_batch_size (length (w.batch ++ e ∷ [])))) [
    | inl full ↦
        rw full (flush_batch-coming (record w { batch = w.batch ++ e ∷ [] }) ∙ push-coming e w)
    | inr more ↦ rw more (push-coming e w)
  ]

  run-file :
      (es : List Event) (w : Writer)
      → (run format es w).file ≡ coming w ++ batch_text format (entries es)
  unfolding run batch_text
  run-file [] w = flush_batch-file w ∙ sym (append-nil (coming w))
  run-file (tick ∷ es) w =
      run-file es (on_event format tick w)
      ∙ ap (λ t. t ++ batch_text format (entries es)) (unfold on_event in flush_batch-coming w)
  run-file (entry e ∷ es) w =
      run-file es (on_event format (entry e) w)
      ∙ rw (entry-coming e w)
          (append_assoc (coming w) (entry_text format e) (batch_text format (entries es)))

-- The file behind the writer: the file as it was opened, and the entries that were sent.
pub writer_task_lem :
    (format : ℕ → Text) (file : Text) (events : List Event)
    → writer_task format file events ≡ open_file file ++ batch_text format (entries events)
unfolding writer_task coming batch_text
writer_task_lem format file events =
    run-file format events (record { file = open_file file; batch = [] })
    ∙ ap (λ t. t ++ batch_text format (entries events)) (append-nil (open_file file))
