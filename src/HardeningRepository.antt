-- ===== src/HardeningRepository.antt =====
-- internal/repository/hardening_repository.go: the tasks, their steps and their logs.
mod Tasks
mod Steps
mod Queries
pub mod Creation
pub mod Active
pub mod Transitions
pub mod Recovery
pub mod Histories
pub mod Guarantees
pub mod Recovered
pub mod Queue
pub mod LogPages
pub mod Cleared
pub mod Evolution
pub mod Lifecycle
pub mod Refinement
unfoldable pub use Tasks.*
unfoldable pub use Steps.*
unfoldable pub use Queries.*
