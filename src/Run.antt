-- ===== src/Run.antt =====
-- run_runtime: the canonical record of a run. `Models` and `Events` are its data, `Projector` the
-- pure projection, `Store` the event log with its transactions, `History` the paged reads.
pub mod Models
pub mod Events
pub mod Projector
pub mod Store
pub mod History
pub mod Runtime
pub mod Tail
pub mod Bus
pub mod Completion
pub mod Samples
pub mod Recovery
mod Examples
