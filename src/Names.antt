-- ===== src/Names.antt =====
-- How processes are named: mcproc/src/common/validation.rs, mcproc/src/common/process_key.rs and the
-- log path of mcproc/src/daemon/log/mod.rs.
pub mod Validation
pub mod Accepts
pub mod ProcessKey
pub mod LogPath
pub mod Keys
