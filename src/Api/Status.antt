-- ===== src/Api/Status.antt =====
-- The errors of the daemon (mcproc/src/daemon/error.rs) and what a request is answered for them
-- (`mcprocd_error_to_status` of mcproc/src/daemon/api/grpc/process_handlers.rs).
use mcproc.Prelude.{Option, none, some, ℕ, ℤ, Text, ltb, if◌then◌else◌}
use mcproc.Process.Status.{proto_try_from}

pub data McprocdError : Type 0 where
  process_not_found : (name : Text) → McprocdError
  process_already_exists spawn_error stop_error io_error config_error api_error log_error :
      Text → McprocdError
  process_failed_to_start : (name : Text) (exit_code : ℤ) (exit_reason stderr : Text) → McprocdError
  invalid_request : Text → McprocdError
  invalid_command : (message : Text) → McprocdError
  process_spawn_failed : (name error : Text) → McprocdError
  invalid_regex : (pattern error : Text) → McprocdError

-- The codes of `tonic::Status` that the daemon answers.
pub data Status : Type 0 where
  not_found already_exists invalid_argument failed_precondition internal : Status

unfoldable pub mcprocd_error_to_status : McprocdError → Status
mcprocd_error_to_status (process_not_found name) = not_found
mcprocd_error_to_status (process_already_exists name) = already_exists
mcprocd_error_to_status (invalid_request t) = invalid_argument
mcprocd_error_to_status (invalid_command message) = invalid_argument
mcprocd_error_to_status (invalid_regex pattern error) = invalid_argument
mcprocd_error_to_status _ = internal

-- `Result<A, Status>`
pub data Answer {ℓ} (A : Type ℓ) : Type ℓ where
  ok : A → Answer A
  err : Status → Answer A

abbrev pub max_wait_timeout : ℕ
max_wait_timeout = 3600

-- `Ok(())` is none.
unfoldable pub validate_wait_timeout : Option ℕ → Option Status
validate_wait_timeout none = none
validate_wait_timeout (some timeout) =
    if ltb max_wait_timeout timeout then some invalid_argument else none

unfoldable pub validate_status_filter : ℤ → Option Status
validate_status_filter filter = elim (proto_try_from filter) [
  | none ↦ some invalid_argument
  | some s ↦ none
]
