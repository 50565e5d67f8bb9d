-- ===== src/Log.antt =====
-- From the output of a process to its log file: mcproc/src/daemon/process/hyperlog.rs and
-- mcproc/src/daemon/log.
pub mod HyperLog
pub mod BatchWriter
pub mod Reader
pub mod Sources
pub mod Grep
pub mod Times
pub mod Cleaner
pub mod ReadBack
