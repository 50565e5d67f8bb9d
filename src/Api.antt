-- ===== src/Api.antt =====
-- The requests that the daemon answers: mcproc/src/daemon/api/grpc. A status is its code and a failed
-- answer has no message; a text of a message is left out.
pub mod Status
pub mod Info
pub mod Handlers
pub mod Listing
pub mod Start
pub mod Started
pub mod Grep
pub mod Found
pub mod Logs
pub mod Discovered
pub mod Wanted
pub mod Streamed
