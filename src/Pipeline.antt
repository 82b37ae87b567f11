-- ===== src/Pipeline.antt =====
-- pipeline_runtime, and its recorder in run_runtime/pipeline.py: a run from the plan to its outcome.
pub mod Recorder
pub mod Models
pub mod Feedback
pub mod Ports
pub mod Calls
pub mod Ends
pub mod Runner
pub mod Outcome
pub mod Keeps
pub mod Reports
pub mod Attempts
pub mod Undecided
pub mod Settles
mod Examples
