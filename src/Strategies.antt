-- ===== src/Strategies.antt =====
-- internal/repository/strategy_repository.go and internal/service/strategy_service.go.
mod Repository
mod Inputs
mod Service
pub mod Validity
unfoldable pub use Repository.*
unfoldable pub use Inputs.*
unfoldable pub use Service.*
