-- ===== src/Collab.antt =====
-- collab_runtime: a session that is shared through published revisions of its state.
pub mod Scopes
pub mod Models
pub mod Hub
pub mod Coordinator
pub mod Replay
pub mod Examples
