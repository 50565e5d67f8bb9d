-- ===== src/Log/Grep.antt =====
-- The search in a log file: `grep_log_file` of mcproc/src/daemon/api/grpc/log_handlers.rs. A file is its
-- lines; a time is a number that grows with it; the regular expression is a function, of the `regex`
-- crate. A file has fewer than 2^32 lines.
pub mod Matches
pub mod Window
use mcproc.Prelude.{
  ℕ, zero, suc, ◌+◌, ◌-◌, min, Bool, true, false, not, ◌&&◌, List, [], ◌∷◌, ◌++◌, map, filter,
  Option, none, some, leb, ltb, ◌==◌, if◌then◌else◌, length, take, drop, Text,
}
use mcproc.Log.Reader.{LogLevel, parse_log_line}

abbrev pub max_grep_context : ℕ
max_grep_context = 1000

abbrev pub max_grep_matches : ℕ
max_grep_matches = 1000

unfoldable pub clamp_grep_context : ℕ → ℕ
clamp_grep_context value = min value max_grep_context

-- What the search answers of a line; `process_name` is left empty.
pub record LogEntry : Type 0 where
  pub line_number : ℕ
  pub content : Text
  pub timestamp : Option ℕ
  pub level : LogLevel

pub record ParsedLogLine : Type 0 where
  pub line_number : ℕ
  pub original : Text
  pub timestamp : Option ℕ
  pub level : LogLevel
  pub content : Text

unfoldable pub to_log_entry : ParsedLogLine → LogEntry
to_log_entry p = record {
  line_number = p.line_number;
  content = p.content;
  timestamp = p.timestamp;
  level = p.level;
}

pub record GrepMatch : Type 0 where
  pub matched_line : LogEntry
  pub context_before : List LogEntry
  pub context_after : List LogEntry

-- A match that waits for the lines behind it.
pub record PendingMatch : Type 0 where
  pub matched_line : LogEntry
  pub context_before : List LogEntry
  pub context_after : List LogEntry
  pub after_remaining : ℕ

-- `log_time >= since` and `log_time <= until`
unfoldable pub passes_since : Option ℕ → ℕ → Bool
passes_since none time = true
passes_since (some since) time = leb since time

unfoldable pub passes_until : Option ℕ → ℕ → Bool
passes_until none time = true
passes_until (some until) time = leb time until

unfoldable pub passes_time_filter : Option ℕ → Option ℕ → Option ℕ → Bool
unfolding passes_since passes_until
passes_time_filter since until none = true
passes_time_filter since until (some time) = passes_since since time && passes_until until time

unfoldable pub parse_line : (Text → Option ℕ) → ℕ → Text → ParsedLogLine
unfolding parse_log_line
parse_line parse_time line_number line =
    let (timestamp, level, content) = parse_log_line parse_time line in
    record {
      line_number = line_number;
      original = line;
      timestamp = timestamp;
      level = level;
      content = content;
    }

pub record Search : Type 0 where
  pub before_buffer : List ParsedLogLine
  pub pending_matches : List PendingMatch
  pub results : List GrepMatch

-- The line goes to the context of a match that waits for one.
unfoldable pub push_after : LogEntry → PendingMatch → PendingMatch
push_after entry p =
    if ltb 0 p.after_remaining
    then record p {
      context_after = p.context_after ++ entry ∷ [];
      after_remaining = p.after_remaining - 1;
    }
    else p

unfoldable pub close : PendingMatch → GrepMatch
close p = record {
  matched_line = p.matched_line;
  context_before = p.context_before;
  context_after = p.context_after;
}

-- The matches that wait for no more lines, and those that do.
unfoldable pub completed : List PendingMatch → List PendingMatch
completed = filter (λ p. p.after_remaining == 0)

unfoldable pub waiting : List PendingMatch → List PendingMatch
waiting = filter (λ p. not (p.after_remaining == 0))

-- The first half of a round, up to the look at the number of results.
unfoldable pub settle : LogEntry → Search → Search
unfolding push_after close completed waiting
settle entry s =
    let pending = map (push_after entry) s.pending_matches in
    record s {
      pending_matches = waiting pending;
      results = s.results ++ map close (completed pending);
    }

-- The window of lines before the current one.
unfoldable pub push_before : ℕ → ParsedLogLine → List ParsedLogLine → List ParsedLogLine
push_before before line buffer =
    if ltb 0 before
    then (let full = buffer ++ line ∷ [] in if ltb before (length full) then drop 1 full else full)
    else buffer

-- The second half: a new match, and the window.
unfoldable pub note_line : (Text → Bool) → ℕ → ℕ → ParsedLogLine → Search → Search
unfolding push_before to_log_entry
note_line is_match before after line s = record s {
  pending_matches =
      (if is_match line.original
        then s.pending_matches
          ++ record {
            matched_line = to_log_entry line;
            context_before = map to_log_entry s.before_buffer;
            context_after = [];
            after_remaining = after;
          }
            ∷ []
        else s.pending_matches);
  before_buffer = push_before before line s.before_buffer;
}

-- The matches that still wait at the end, until there are enough.
unfoldable pub finalize : List GrepMatch → List PendingMatch → List GrepMatch
unfolding close
finalize results [] = results
finalize results (p ∷ ps) =
    let more = finalize (results ++ close p ∷ []) ps in
    if leb max_grep_matches (length results) then results else more

-- The loop over the lines that pass the filter of times.
unfoldable pub grep_loop : (Text → Bool) → ℕ → ℕ → List ParsedLogLine → Search → List GrepMatch
unfolding settle note_line finalize
grep_loop is_match before after [] s = finalize s.results s.pending_matches
grep_loop is_match before after (line ∷ lines) s =
    let t = settle (to_log_entry line) s in
    let more = grep_loop is_match before after lines (note_line is_match before after line t) in
    if leb max_grep_matches (length t.results) then t.results else more

-- The lines that pass, with their numbers in the file.
unfoldable pub passing_lines :
    (Text → Option ℕ) → Option ℕ → Option ℕ → ℕ → List Text → List ParsedLogLine
unfolding parse_line passes_time_filter
passing_lines parse_time since until n [] = []
passing_lines parse_time since until n (line ∷ lines) =
    let rest = passing_lines parse_time since until (suc n) lines in
    let parsed = parse_line parse_time n line in
    if passes_time_filter since until parsed.timestamp then parsed ∷ rest else rest

unfoldable pub grep_log_file :
    (Text → Option ℕ) → (Text → Bool) → ℕ → ℕ → Option ℕ → Option ℕ → List Text → List GrepMatch
unfolding passing_lines grep_loop
grep_log_file parse_time is_match before after since until file =
    grep_loop is_match before after (passing_lines parse_time since until 1 file)
      (record { before_buffer = []; pending_matches = []; results = [] })
