-- ===== src/Api/Grep.antt =====
-- The request to search a log (`grep_logs_impl` and `grep_log_path` of
-- mcproc/src/daemon/api/grpc/log_handlers.rs).
use mcproc.Prelude.{ℕ, Bool, List, Option, none, some, Text}
use mcproc.Names.Validation.{validate_project_name, validate_process_name}
use mcproc.Names.ProcessKey
use mcproc.Names.LogPath.{get_log_file_path_for_key}
use mcproc.Log.Times.{Chrono, Outcome, invalid, panic, parse_time_filters}
use mcproc.Log.Times
use mcproc.Log.Grep.{GrepMatch, clamp_grep_context, grep_log_file}
use mcproc.Api.Status.{Status, Answer, ok, err}

pub record GrepLogsRequest : Type 0 where
  pub name : Text
  pub pattern : Text
  pub project : Text
  pub context : Option ℕ
  pub before : Option ℕ
  pub after : Option ℕ
  pub since : Option Text
  pub until : Option Text
  pub last : Option Text

unfoldable pub grep_log_path : Text → Text → Text → Answer Text
grep_log_path log_dir project name = elim (validate_project_name project) [
  | some e ↦ err Status.invalid_argument
  | none ↦ elim (validate_process_name name) [
    | some e ↦ err Status.invalid_argument
    | none ↦ ok (get_log_file_path_for_key log_dir (ProcessKey.new project name))
  ]
]

unfoldable pub or_three : Option ℕ → ℕ
or_three none = 3
or_three (some n) = n

-- `req.before.map(clamp_grep_context).unwrap_or(context)`
unfoldable pub lines_around : Option ℕ → Option ℕ → ℕ
unfolding clamp_grep_context or_three
lines_around (some n) context = clamp_grep_context n
lines_around none context = clamp_grep_context (or_three context)

-- What stands at the path of a log file.
pub data LogFile : Type 0 where
  missing unreadable : LogFile
  lines : List Text → LogFile

-- The time of a line, the crate `chrono`, and patterns of the crate `regex`, none for one that does not
-- compile.
module _ (parse_time : Text → Option ℕ) (c : Chrono) (compile : Text → Option (Text → Bool))
    (log_dir : Text) (file : Text → LogFile) where
  unfoldable pub search_file :
      GrepLogsRequest → (Text → Bool) → Option ℕ × Option ℕ → LogFile → Answer (List GrepMatch)
  unfolding lines_around
  search_file req is_match (since, until) missing = err Status.internal
  search_file req is_match (since, until) unreadable = err Status.internal
  search_file req is_match (since, until) (lines ls) = ok (
      grep_log_file parse_time is_match (lines_around req.before req.context)
        (lines_around req.after req.context) since until ls)

  unfoldable pub with_pattern :
      GrepLogsRequest → LogFile → Outcome (Option ℕ × Option ℕ) → Outcome (Answer (List GrepMatch))
  unfolding search_file
  with_pattern req found invalid = Times.ok (err Status.invalid_argument)
  with_pattern req found panic = panic
  with_pattern req found (Times.ok range) = elim (compile req.pattern) [
    | none ↦ Times.ok (err Status.invalid_argument)
    | some is_match ↦ Times.ok (search_file req is_match range found)
  ]

  unfoldable pub with_file : GrepLogsRequest → LogFile → Outcome (Answer (List GrepMatch))
  unfolding with_pattern parse_time_filters
  with_file req missing = Times.ok (err Status.not_found)
  with_file req unreadable =
      with_pattern req unreadable (parse_time_filters c req.since req.until req.last)
  with_file req (lines ls) =
      with_pattern req (lines ls) (parse_time_filters c req.since req.until req.last)

  -- `panic`: the handler panics, and the request is not answered.
  unfoldable pub grep_logs_impl : GrepLogsRequest → Outcome (Answer (List GrepMatch))
  unfolding grep_log_path with_file
  grep_logs_impl req = elim (grep_log_path log_dir req.project req.name) [
    | err status ↦ Times.ok (err status)
    | ok path ↦ with_file req (file path)
  ]
