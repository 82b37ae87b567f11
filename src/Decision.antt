-- ===== src/Decision.antt =====
-- decision_runtime: the triage of a failed verification, an aid that the fix loop may ask.
pub mod Triage
mod Examples
