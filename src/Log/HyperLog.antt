-- ===== src/Log/HyperLog.antt =====
-- `HyperLogStreamer` of mcproc/src/daemon/process/hyperlog.rs: chunks of bytes become lines, which go to
-- the log file and to the subscribers, and the pattern of `wait_for_log` is looked for in them. The
-- regular expression is a function, of the `regex` crate; timestamps are left out.
pub mod Lines
pub mod Streamer
pub mod Delivery
pub mod Waiting
use mcproc.Prelude.{
  ℕ, zero, suc, ◌+◌, ◌*◌, Bool, true, false, ◌&&◌, not, List, [], ◌∷◌, ◌++◌, Option, none, some,
  ltb, ◌==◌, if◌then◌else◌, length, is_empty, Text, trim_end, from_utf8,
}

-- MAX_LINE_BUFFER_SIZE
abbrev pub max_line_buffer_size : ℕ
max_line_buffer_size = 1024 * 1024

-- The parts of `HyperLogConfig` that the processing reads, and whether a batch writer could be made.
pub record HyperLogConfig : Type 0 where
  pub log_pattern : Option (Text → Bool)
  pub is_stderr : Bool
  pub has_writer : Bool

-- What the streams of a process share for `wait_for_log`. `sender` tells whether the one-shot sender of
-- `log_ready_tx` is still there; `notified` counts what was sent.
pub record Wait : Type 0 where
  pub pattern_matched : Bool
  pub matched_line : Option Text
  pub timeout_occurred : Bool
  pub sender : Bool
  pub notified : ℕ

-- `BatchLogEntry`
pub record Entry : Type 0 where
  pub content : Text
  pub is_stderr : Bool

pub record Sink : Type 0 where
  pub line_buffer : Text
  pub written : List Entry
  pub published : List Text
  pub wait : Wait

-- `if let Some(sender) = tx_guard.take() { sender.send(()) }`
unfoldable pub notify : Wait → Wait
notify w = if w.sender then record w { sender = false; notified = w.notified + 1 } else w

unfoldable pub match_text : (Text → Bool) → Text → Wait → Wait
unfolding notify
match_text is_match line w =
    if is_match line
    then notify (record w { pattern_matched = true; matched_line = some line })
    else w

unfoldable pub match_bytes : (Text → Bool) → Option Text → Wait → Wait
unfolding match_text
match_bytes is_match none w = w
match_bytes is_match (some text) w = match_text is_match (trim_end text) w

-- The check of a complete line for the pattern.
unfoldable pub check_pattern : HyperLogConfig → Text → Wait → Wait
unfolding match_bytes
check_pattern config line w = elim config.log_pattern [
  | none ↦ w
  | some is_match ↦ if w.pattern_matched then w else match_bytes is_match (from_utf8 line) w
]

unfoldable pub published_text : Option Text → List Text
published_text none = []
published_text (some text) = trim_end text ∷ []

-- A line goes to the batch writer, and is collected for the subscribers if it is UTF-8.
unfoldable pub emit : HyperLogConfig → Text → Sink → Sink
unfolding published_text
emit config line s = record s {
  written =
      (if config.has_writer
        then s.written ++ record { content = line; is_stderr = config.is_stderr } ∷ []
        else s.written);
  published = s.published ++ published_text (from_utf8 line);
}

-- `position(|&b| b == b'\n')` and `drain(..=newline_pos)`: the first line with its newline, and the rest.
unfoldable pub cons_line : ℕ → Option (Text × Text) → Option (Text × Text)
cons_line b none = none
cons_line b (some (line, rest)) = some (b ∷ line, rest)

unfoldable pub drain_line : Text → Option (Text × Text)
unfolding cons_line
drain_line [] = none
drain_line (b ∷ s) =
    let more = cons_line b (drain_line s) in if b == b'\n' then some (b ∷ [], s) else more

-- The `while let` loop over the complete lines in the buffer. A round takes a byte at least, so the
-- length of the buffer is fuel enough.
unfoldable pub drain_lines : ℕ → HyperLogConfig → Sink → Sink
drain_lines zero config s = s
drain_lines (suc fuel) config s = elim (drain_line s.line_buffer) [
  | none ↦ s
  | some (line, rest) ↦
      drain_lines fuel config (
        emit config line (record s { line_buffer = rest; wait = check_pattern config line s.wait }))
]

-- The forced flush of a line that is too long, with no look for the pattern.
unfoldable pub force_flush : HyperLogConfig → Sink → Sink
force_flush config s =
    if ltb max_line_buffer_size (length s.line_buffer)
    then emit config (s.line_buffer ++ b'\n' ∷ []) (record s { line_buffer = [] })
    else s

unfoldable pub process_chunk : HyperLogConfig → Sink → Text → Sink
process_chunk config s chunk =
    let buffer = s.line_buffer ++ chunk in
    force_flush config (drain_lines (length buffer) config (record s { line_buffer = buffer }))

unfoldable pub process_batch : HyperLogConfig → Sink → List Text → Sink
process_batch config s [] = s
process_batch config s (chunk ∷ batch) = process_batch config (process_chunk config s chunk) batch
