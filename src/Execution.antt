-- ===== src/Execution.antt =====
-- execution/: the authorization that lets one controlled order through.
pub mod Authorization
pub mod Session
pub mod Recovery
pub mod Live
pub mod Paper
pub mod Monitor
