-- ===== src/Verification.antt =====
-- verification_runtime: the models of a check, a plan and a report, and the runner.
pub mod Models
pub mod Runner
pub mod Status
pub mod Results
mod Examples
