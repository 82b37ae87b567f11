-- ===== src/Run/Completion.antt =====
-- run_runtime/completion.py: the gate that alone settles a run, from the evidence in its log.
-- `Kinds` are its sets of event types, `Checks` its checks over the events, `Gate` its operations.
pub mod Kinds
pub mod Checks
pub mod Gate
pub mod Evidence
pub mod Settlement
pub mod Written
pub mod Reviewed
