-- ===== src/Store.antt =====
-- The state that the components share, and the calls that read and change it: the tables of
-- internal/db/db.go, the objects in the bucket of internal/pkg/storage, and the outcome of every
-- call of a library outside the repository.
mod Base
mod Statements
pub mod Hoare
pub mod Outcomes
pub mod Success
pub mod Failures
unfoldable pub use Base.*
unfoldable pub use Statements.*
