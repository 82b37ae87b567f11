-- ===== src/Run/Recovery.antt =====
-- run_runtime/recovery.py: the runs that a restart of the process has cut off are closed.
pub mod Drafts
pub mod Scan
pub mod Interrupted
pub mod Among
pub mod Ended
pub mod Complete
mod Examples
