-- ===== src/Api/Info.antt =====
-- What the daemon reports of a process (mcproc/src/daemon/api/grpc/helpers.rs).
use mcproc.Prelude.{
  ℕ, Bool, true, false, ◌||◌, List, [], ◌∷◌, filter, Option, none, some, if◌then◌else◌, ℤ, Text,
  codes, strip_prefix, intercalate, last,
}
use mcproc.Names.ProcessKey.{ProcessKey}
use mcproc.Names.ProcessKey
use mcproc.Names.LogPath.{get_log_file_path_for_key}
use mcproc.Process.Status.{
  ProcessStatus, failed, ProtoStatus, proto_number, convert_process_status, ExitReason,
  format_exit_reason,
}
use mcproc.Process.Proxy.{ProxyInfo, get_status}

-- The message `ProcessInfo`; its time is in milliseconds.
pub record ProcessInfo : Type 0 where
  pub id : Text
  pub name : Text
  pub cmd : Text
  pub cwd : Text
  pub status : ℕ
  pub start_time : ℕ
  pub pid : Option ℕ
  pub log_file : Text
  pub project : Text
  pub ports : List ℕ
  pub wait_timeout_occurred : Option Bool
  pub exit_code : Option ℤ
  pub exit_reason : Option Text
  pub stderr_tail : Option Text
  pub log_context : List Text
  pub matched_line : Option Text

-- What the helpers find around them: the directory of the logs, which locks of a process are free, the
-- lines of a log file with none for one that is not UTF-8, and the wording of a reason.
pub record Around : Type 0 where
  pub log_dir : Text
  pub port_free : ProxyInfo → Bool
  pub exit_free : ProxyInfo → Bool
  pub log_lines : Text → Option (List (Option Text))
  pub word : ExitReason → Text

unfoldable pub one_port : Option ℕ → List ℕ
one_port none = []
one_port (some port) = port ∷ []

unfoldable pub extract_ports : Around → ProxyInfo → List ℕ
unfolding one_port
extract_ports a p = elim p.port [
  | some port ↦ port ∷ []
  | none ↦ if a.port_free p then one_port p.detected_port else []
]

-- `line.contains(s)`
unfoldable pub has_prefix : Option Text → Bool
has_prefix none = false
has_prefix (some rest) = true

unfoldable pub contains_str : Text → Text → Bool
unfolding has_prefix
contains_str s [] = has_prefix (strip_prefix s [])
contains_str s (c ∷ t) = has_prefix (strip_prefix s (c ∷ t)) || contains_str s t

-- `reader.lines().map_while(Result::ok)`
unfoldable pub while_ok : List (Option Text) → List Text
while_ok [] = []
while_ok (none ∷ lines) = []
while_ok (some line ∷ lines) = line ∷ while_ok lines

abbrev pub max_stderr_lines : ℕ
max_stderr_lines = 200

unfoldable pub extract_stderr_tail : Option (List (Option Text)) → Text
unfolding while_ok contains_str
extract_stderr_tail none = []
extract_stderr_tail (some lines) =
    intercalate b'\n'
      (last max_stderr_lines (filter (contains_str (codes "[ERROR]")) (while_ok lines)))

unfoldable pub exit_details : Around → Text → Option ℤ → Option ℤ × Option Text × Option Text
unfolding extract_stderr_tail
exit_details a path none = (none, none, none)
exit_details a path (some code) = (
  some code,
  some (a.word (format_exit_reason code)),
  some (extract_stderr_tail (a.log_lines path)),
)

unfoldable pub extract_exit_details :
    Around → ProxyInfo → Text → Option ℤ × Option Text × Option Text
unfolding exit_details
extract_exit_details a p path =
    if a.exit_free p then exit_details a path p.exit_code else (none, none, none)

unfoldable pub or_empty : Option Text → Text
or_empty none = []
or_empty (some t) = t

unfoldable pub when_waited : Option Text → Option Bool → Option Bool
when_waited none occurred = none
when_waited (some pattern) occurred = occurred

unfoldable pub is_failed : ProcessStatus → Bool
is_failed failed = true
is_failed _ = false

unfoldable pub log_path : Around → Text → Text → Text
log_path a project name = get_log_file_path_for_key a.log_dir (ProcessKey.new project name)

unfoldable pub create_process_info :
    Around → Option Bool → List Text → Option Text → ProxyInfo → ProcessInfo
unfolding extract_exit_details extract_ports or_empty when_waited is_failed log_path
create_process_info a timeout_occurred log_context matched_line p =
    let path = log_path a p.project p.name in
    let (exit_code, exit_reason, stderr_tail) : Option ℤ × Option Text × Option Text =
      if is_failed (get_status p) then extract_exit_details a p path else (none, none, none) in
    record {
      id = p.id;
      name = p.name;
      cmd = or_empty p.cmd;
      cwd = or_empty p.cwd;
      status = convert_process_status (get_status p);
      start_time = p.start_time;
      pid = some p.pid;
      log_file = path;
      project = p.project;
      ports = extract_ports a p;
      wait_timeout_occurred = when_waited p.wait_for_log timeout_occurred;
      exit_code = exit_code;
      exit_reason = exit_reason;
      stderr_tail = stderr_tail;
      log_context = log_context;
      matched_line = matched_line;
    }

pub record FailedProcessParams : Type 0 where
  pub name : Text
  pub project : Text
  pub cmd : Option Text
  pub cwd : Option Text
  pub exit_code : ℤ
  pub exit_reason : Text
  pub stderr : Text

-- `id` is a new UUID, and `now` the time.
unfoldable pub create_failed_process_info : Around → Text → ℕ → FailedProcessParams → ProcessInfo
unfolding or_empty log_path
create_failed_process_info a id now params = record {
  id = id;
  name = params.name;
  cmd = or_empty params.cmd;
  cwd = or_empty params.cwd;
  status = proto_number ProtoStatus.failed;
  start_time = now;
  pid = none;
  log_file = log_path a params.project params.name;
  project = params.project;
  ports = [];
  wait_timeout_occurred = none;
  exit_code = some params.exit_code;
  exit_reason = some params.exit_reason;
  stderr_tail = some params.stderr;
  log_context = [];
  matched_line = none;
}
