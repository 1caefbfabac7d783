-- ===== src/Worker.antt =====
-- internal/worker/hardening_worker.go: one queued task at a time, through its six steps.
mod ObjectKey
mod Artifacts
mod Steps
mod Run
pub mod Completion
pub mod Uploads
pub mod Rollbacks
pub mod Keeping
pub mod Liveness
pub mod Settlement
pub mod Draining
pub mod Rounds
unfoldable pub use ObjectKey.*
unfoldable pub use Artifacts.*
unfoldable pub use Steps.*
unfoldable pub use Run.*
