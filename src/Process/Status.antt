-- ===== src/Process/Status.antt =====
-- The states of a process (`ProcessStatus` of mcproc/src/daemon/process/proxy.rs and of the protocol),
-- their codes and names (mcproc/src/common/status.rs, `convert_process_status` of
-- mcproc/src/daemon/api/grpc/helpers.rs), and exit codes (mcproc/src/common/exit_code.rs,
-- mcproc/src/daemon/process/exit_handler.rs).
use mcproc.Prelude.{
  ℕ, ◌-◌, Bool, Option, none, some, ◌==◌, if◌then◌else◌, ℤ, pos, negsuc, is_nat, exceeds, Text,
  codes,
}

pub data ProcessStatus : Type 0 where
  starting running stopping stopped failed : ProcessStatus

-- `status as u8`
unfoldable pub to_u8 : ProcessStatus → ℕ
to_u8 starting = 1
to_u8 running = 2
to_u8 stopping = 3
to_u8 stopped = 4
to_u8 failed = 5

-- `ProcessStatus::from`
unfoldable pub from_u8 : ℕ → ProcessStatus
from_u8 value =
    if value == 1
    then starting
    else if value == 2
    then running
    else if value == 3
    then stopping
    else if value == 4
    then stopped
    else if value == 5
    then failed
    else stopped

-- `proto::ProcessStatus`
pub data ProtoStatus : Type 0 where
  unknown starting running stopping stopped failed : ProtoStatus

-- `impl From<ProcessStatus> for proto::ProcessStatus`
unfoldable pub to_proto : ProcessStatus → ProtoStatus
to_proto ProcessStatus.starting = ProtoStatus.starting
to_proto ProcessStatus.running = ProtoStatus.running
to_proto ProcessStatus.stopping = ProtoStatus.stopping
to_proto ProcessStatus.stopped = ProtoStatus.stopped
to_proto ProcessStatus.failed = ProtoStatus.failed

-- The numbers that mcproc.proto gives to the states: `status as i32`.
unfoldable pub proto_number : ProtoStatus → ℕ
proto_number ProtoStatus.unknown = 0
proto_number ProtoStatus.starting = 1
proto_number ProtoStatus.running = 2
proto_number ProtoStatus.stopping = 3
proto_number ProtoStatus.stopped = 4
proto_number ProtoStatus.failed = 5

-- `proto::ProcessStatus::try_from(status)`, on the numbers of an `i32`
unfoldable pub proto_try_from : ℤ → Option ProtoStatus
proto_try_from n =
    if is_nat 0 n
    then some ProtoStatus.unknown
    else if is_nat 1 n
    then some ProtoStatus.starting
    else if is_nat 2 n
    then some ProtoStatus.running
    else if is_nat 3 n
    then some ProtoStatus.stopping
    else if is_nat 4 n
    then some ProtoStatus.stopped
    else if is_nat 5 n
    then some ProtoStatus.failed
    else none

-- `convert_process_status` of mcproc/src/daemon/api/grpc/helpers.rs
unfoldable pub convert_process_status : ProcessStatus → ℕ
unfolding proto_number
convert_process_status ProcessStatus.starting = proto_number ProtoStatus.starting
convert_process_status ProcessStatus.running = proto_number ProtoStatus.running
convert_process_status ProcessStatus.stopping = proto_number ProtoStatus.stopping
convert_process_status ProcessStatus.stopped = proto_number ProtoStatus.stopped
convert_process_status ProcessStatus.failed = proto_number ProtoStatus.failed

unfoldable pub format_status_enum : ProtoStatus → Text
format_status_enum ProtoStatus.unknown = codes "Unknown"
format_status_enum ProtoStatus.starting = codes "Starting"
format_status_enum ProtoStatus.running = codes "Running"
format_status_enum ProtoStatus.stopping = codes "Stopping"
format_status_enum ProtoStatus.stopped = codes "Stopped"
format_status_enum ProtoStatus.failed = codes "Failed"

or_unknown : Option ProtoStatus → ProtoStatus
or_unknown none = ProtoStatus.unknown
or_unknown (some s) = s

unfoldable pub format_status : ℤ → Text
unfolding format_status_enum or_unknown proto_try_from
format_status status = format_status_enum (or_unknown (proto_try_from status))

-- The reasons that `format_exit_reason` words; `signal` has the number that the message shows.
pub data ExitReason : Type 0 where
  normal general_error shell_misuse cannot_execute not_found unknown_error : ExitReason
  signal : ℕ → ExitReason

-- The arm `code if code > 128`, and the last one.
by_signal : ℤ → ExitReason
by_signal (pos n) = if exceeds 128 (pos n) then signal (n - 128) else unknown_error
by_signal (negsuc n) = unknown_error

unfoldable pub format_exit_reason : ℤ → ExitReason
unfolding by_signal
format_exit_reason code =
    if is_nat 0 code
    then normal
    else if is_nat 1 code
    then general_error
    else if is_nat 2 code
    then shell_misuse
    else if is_nat 126 code
    then cannot_execute
    else if is_nat 127 code
    then not_found
    else by_signal code

-- `codes::SIGNAL_BASE`
abbrev pub signal_base : ℕ
signal_base = 128

unfoldable pub is_signal_termination : ℤ → Bool
is_signal_termination exit_code = exceeds signal_base exit_code

unfoldable pub get_signal_number : ℤ → Option ℕ
unfolding is_signal_termination
get_signal_number (pos n) = if is_signal_termination (pos n) then some (n - signal_base) else none
get_signal_number (negsuc n) = none

-- What `ExitHandler::format_exit_message` words: the name, and the code with its reason, if any.
unfoldable pub format_exit_message : Text → Option ℤ → Text × Option (ℤ × ExitReason)
unfolding format_exit_reason
format_exit_message name (some code) = (name, some (code, format_exit_reason code))
format_exit_message name none = (name, none)
