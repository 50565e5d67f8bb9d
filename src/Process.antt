-- ===== src/Process.antt =====
-- The processes that the daemon manages: mcproc/src/daemon/process.
pub mod Status
pub mod Codes
pub mod Proxy
pub mod Stop
pub mod Registry
pub mod Events
pub mod Lifecycle
pub mod Launcher
pub mod Ports
pub mod Cleaning
pub mod Restart
