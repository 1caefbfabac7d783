-- ===== src/Engine.antt =====
-- internal/service/hardening_command.go: which protections a strategy turns on, and the command
-- line of the engine.
mod Flags
mod Command
pub mod Options
mod Paths
pub mod LogLine
unfoldable pub use Flags.*
unfoldable pub use Command.*
unfoldable pub use Paths.*
