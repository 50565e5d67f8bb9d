-- ===== src/Api/Found.antt =====
-- What an answer to a search holds at most (`grep_logs_impl` of
-- mcproc/src/daemon/api/grpc/log_handlers.rs).
use mcproc.Prelude.{
  min, ◌≢◌, ℕ, ◌≤◌, ◌≡◌, ◌⊎◌, Bool, List, [], ◌∷◌, Option, none, some, Text, length, take, last,
}
use mcproc.Names.ProcessKey
use mcproc.Log.Times.{Chrono, Outcome, invalid, panic, parse_time_filters}
use mcproc.Log.Times
use mcproc.Log.Grep.{GrepMatch, passing_lines}
use mcproc.Log.Grep.Matches.{matches}
use mcproc.Api.Status
use mcproc.Api.Status.{Status, Answer}
use mcproc.Api.Grep.{GrepLogsRequest, LogFile, missing, unreadable, lines}

-- Each match has at most so many lines around it.
abbrev pub Narrow : ℕ → ℕ → List GrepMatch → Type 0
Narrow before after [] = Unit
Narrow before after (m ∷ ms) =
    (length m.context_before ≤ before) × (length m.context_after ≤ after) × Narrow before after ms

-- How many lines are shown on a side: as many as were asked for there, or else on both sides, or else 3, and
-- at most 1000.
abbrev pub IsAround : Option ℕ → Option ℕ → ℕ → Type 0
IsAround (some asked) context n = (n ≡ min asked 1000)
IsAround none (some asked) n = (n ≡ min asked 1000)
IsAround none none n = (n ≡ 3)

module _ (parse_time : Text → Option ℕ) (c : Chrono) (compile : Text → Option (Text → Bool))
    (log_dir : Text) (file : Text → LogFile) where
  -- The times and the pattern of the request can be read, as these.
  abbrev pub Reads : GrepLogsRequest → Option ℕ → Option ℕ → (Text → Bool) → Type 0
  Reads req since until is_match =
      (parse_time_filters c req.since req.until req.last ≡ Times.ok (since, until))
      × (compile req.pattern ≡ some is_match)

  -- The first 1000 matches of the lines that pass the times, each with the lines around it, of which there are
  -- at most so many on either side.
  abbrev pub Finds :
      GrepLogsRequest
      → (since until : Option ℕ) → (Text → Bool)
      → List Text
      → List GrepMatch
      → Type 0
  Finds req since until is_match ls ms =
      (before : ℕ) × (after : ℕ) × IsAround req.before req.context before
      × IsAround req.after req.context after
      × (ms
          ≡ take 1000
              (matches is_match before after [] (passing_lines parse_time since until 1 ls)))
      × (length ms ≤ 1000)
      × Narrow before after ms

  -- What becomes of a request whose names are valid, by what stands at the path.
  abbrev pub Ends : GrepLogsRequest → LogFile → Outcome (Answer (List GrepMatch)) → Type 0
  Ends req found invalid = ⊥
  Ends req found panic =
      (parse_time_filters c req.since req.until req.last ≡ panic) × (found ≢ missing)
  Ends req found (Times.ok (Status.err status)) =
      ((status ≡ Status.not_found) × (found ≡ missing))
      ⊎ ((status ≡ Status.internal)
          × (found ≡ unreadable)
          × ((since : Option ℕ) × (until : Option ℕ) × (is_match : Text → Bool) × Reads req since
                until is_match))
      ⊎ ((status ≡ Status.invalid_argument)
          × (found ≢ missing)
          × ((parse_time_filters c req.since req.until req.last ≡ invalid)
              ⊎ (compile req.pattern ≡ none)))
  Ends req found (Times.ok (Status.ok ms)) =
      (ls : List Text) × (since : Option ℕ) × (until : Option ℕ) × (is_match : Text → Bool) × (found
        ≡ lines ls)
      × Reads req since until is_match
      × Finds req since until is_match ls ms
