-- ===== src/Fix.antt =====
-- fix_runtime, and the recorder of its events in run_runtime/fix_loop.py: the bounded fix loop.
pub mod Models
pub mod Recorder
pub mod Task
pub mod Ports
pub mod Calls
pub mod Branches
pub mod Runner
pub mod Loop
pub mod Ensures
pub mod Recorded
pub mod Keeps
pub mod Outcome
pub mod Turns
pub mod Reports
pub mod Enough
pub mod Trail
pub mod Samples
pub mod Cancelled
mod Examples
