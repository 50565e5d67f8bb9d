-- ===== src/Api/Logs.antt =====
-- The request for logs: the ends of the files and then, if it follows, what happens (`get_logs_impl` and
-- `discover_log_names` of mcproc/src/daemon/api/grpc/log_handlers.rs).
use mcproc.Prelude.{
  ◌%◌, ◌^◌, ℕ, suc, ◌&&◌, ◌||◌, Bool, List, [], ◌∷◌, ◌++◌, map, filter, Option, none, some, ℤ, Text,
  text_eq, contains_text, is_empty, ltb, if◌then◌else◌,
}
use mcproc.Names.Validation.{validate_project_name}
use mcproc.Names.ProcessKey
use mcproc.Names.ProcessKey.{ProcessKey}
use mcproc.Names.LogPath.{join, get_log_file_path_for_key}
use mcproc.Process.Registry.{ProcessRegistry, get_all_processes, sort}
use mcproc.Process.Events.{ProcessEvent, StreamEvent, process, log, StreamFilter, matches}
use mcproc.Log.Reader.{LogLevel, parse_log_line, clamp_tail, tail_log_lines}
use mcproc.Log.Sources.{resolve_log_sources}
use mcproc.Log.Cleaner.{DirEntry, split_last_dot, is_log_file}
use mcproc.Api.Status.{Status, Answer, ok, err}
use mcproc.Api.Handlers.{or_false}

-- What `read_dir` gives of the directory of a project.
pub data ReadDir : Type 0 where
  missing failed : ReadDir
  entries : List DirEntry → ReadDir

-- `path.file_stem()` of a name that has an extension.
unfoldable pub stem_of : Option (Text × Text) → Text
stem_of none = []
stem_of (some (stem, extension)) = stem

unfoldable pub log_names : List DirEntry → List Text
unfolding stem_of
log_names [] = []
log_names (e ∷ es) =
    let rest = log_names es in
    if is_log_file e then stem_of (split_last_dot e.name) ∷ rest else rest

unfoldable pub discover_log_names : ReadDir → Option (List Text)
unfolding log_names
discover_log_names missing = some []
discover_log_names failed = none
discover_log_names (entries es) = some (sort (log_names es))

pub record GetLogsRequest : Type 0 where
  pub process_names : List Text
  pub tail : Option ℕ
  pub follow : Option Bool
  pub project : Text
  pub include_events : Option Bool

pub data EventType : Type 0 where
  starting started stopping stopped failed : EventType

-- Its time is that of the conversion, and left out.
pub record ProcessLifecycleEvent : Type 0 where
  pub event_type : EventType
  pub process_id : Text
  pub name : Text
  pub project : Text
  pub pid : Option ℕ
  pub exit_code : Option ℤ
  pub error : Option Text

unfoldable pub lifecycle_event : ProcessEvent → ProcessLifecycleEvent
lifecycle_event (ProcessEvent.starting i n p) = record {
  event_type = EventType.starting;
  process_id = i;
  name = n;
  project = p;
  pid = none;
  exit_code = none;
  error = none;
}
lifecycle_event (ProcessEvent.started i n p pid) = record {
  event_type = EventType.started;
  process_id = i;
  name = n;
  project = p;
  pid = some pid;
  exit_code = none;
  error = none;
}
lifecycle_event (ProcessEvent.stopping i n p) = record {
  event_type = EventType.stopping;
  process_id = i;
  name = n;
  project = p;
  pid = none;
  exit_code = none;
  error = none;
}
lifecycle_event (ProcessEvent.stopped i n p code) = record {
  event_type = EventType.stopped;
  process_id = i;
  name = n;
  project = p;
  pid = none;
  exit_code = code;
  error = none;
}
lifecycle_event (ProcessEvent.failed i n p e) = record {
  event_type = EventType.failed;
  process_id = i;
  name = n;
  project = p;
  pid = none;
  exit_code = none;
  error = some e;
}

-- A line of a file, a line that was published, of which only its content is kept, or an event.
pub data GetLogsResponse : Type 0 where
  log_entry :
      (line_number : ℕ) (content : Text) (timestamp : Option ℕ) (level : LogLevel)
      (process_name : Text)
      → GetLogsResponse
  published : (content process_name : Text) → GetLogsResponse
  event : ProcessLifecycleEvent → GetLogsResponse

-- What `event_receiver.recv()` returns.
pub data Received : Type 0 where
  received : StreamEvent → Received
  lagged : ℕ → Received
  closed : Received

-- One turn of the loop for an event that passed the filter.
unfoldable pub turn : Bool → StreamEvent → List GetLogsResponse
unfolding lifecycle_event
turn include_events (log name project entry) = published entry name ∷ []
turn include_events (process e) = if include_events then event (lifecycle_event e) ∷ [] else []

-- The loop of the follow mode, over what the receiver returns.
unfoldable pub follow_loop : StreamFilter → List Received → List GetLogsResponse
unfolding turn
follow_loop f [] = []
follow_loop f (received e ∷ rs) =
    let rest = follow_loop f rs in if matches f e then turn f.include_events e ++ rest else rest
follow_loop f (lagged n ∷ rs) = follow_loop f rs
follow_loop f (closed ∷ rs) = []

-- The entries of the last lines of a file, from the number of lines in front of them on; a number is cast
-- to 32 bits.
unfoldable pub number_entries : (Text → Option ℕ) → Text → ℕ → List Text → List GetLogsResponse
unfolding parse_log_line
number_entries parse_time name n [] = []
number_entries parse_time name n (line ∷ lines) =
    let (timestamp, level, content) = parse_log_line parse_time line in
    log_entry (suc n % 2 ^ 32) content timestamp level name
    ∷ number_entries parse_time name (suc n) lines

-- A file that is missing or cannot be read gives nothing.
unfoldable pub tail_entries :
    (Text → Option ℕ) → ℕ → Text → Option (List Text) → List GetLogsResponse
unfolding number_entries
tail_entries parse_time tail name none = []
tail_entries parse_time tail name (some file) =
    let (start_idx, lines) = tail_log_lines tail file in
    number_entries parse_time name start_idx lines

unfoldable pub or_hundred : Option ℕ → ℕ
or_hundred none = 100
or_hundred (some n) = n

unfoldable pub registry_matches : GetLogsRequest → ProcessRegistry → List ProcessKey
registry_matches req r =
    map (λ p. ProcessKey.new p.project p.name)
      (filter
        (λ p.
          text_eq p.project req.project
          && (is_empty req.process_names || contains_text p.name req.process_names))
        (get_all_processes r))

unfoldable pub filter_of : GetLogsRequest → StreamFilter
filter_of req = record {
  project = some req.project;
  process_names = req.process_names;
  include_events = or_false req.include_events;
}

module _ (parse_time : Text → Option ℕ) (log_dir : Text) (file : Text → Option (List Text))
    (dir : Text → ReadDir) where
  unfoldable pub all_tails : ℕ → List ProcessKey → List GetLogsResponse
  unfolding tail_entries
  all_tails tail [] = []
  all_tails tail (key ∷ keys) =
      tail_entries parse_time tail key.name (file (get_log_file_path_for_key log_dir key))
      ++ all_tails tail keys

  unfoldable pub stream_logs :
      GetLogsRequest → List ProcessKey → List Received → List GetLogsResponse
  unfolding all_tails follow_loop or_hundred filter_of
  stream_logs req sources rs =
      let tail = clamp_tail (or_hundred req.tail) in
      (if ltb 0 tail then all_tails tail sources else [])
      ++ (if or_false req.follow then follow_loop (filter_of req) rs else [])

  unfoldable pub get_logs_impl :
      GetLogsRequest → ProcessRegistry → List Received → Answer (List GetLogsResponse)
  unfolding stream_logs registry_matches discover_log_names
  get_logs_impl req r rs = elim (validate_project_name req.project) [
    | some e ↦ err Status.invalid_argument
    | none ↦ elim (discover_log_names (dir (join log_dir req.project))) [
      | none ↦ err Status.internal
      | some names ↦
          elim (resolve_log_sources req.project (registry_matches req r) req.process_names names) [
            | none ↦ err Status.invalid_argument
            | some sources ↦ ok (stream_logs req sources rs)
          ]
    ]
  ]
