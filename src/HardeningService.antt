-- ===== src/HardeningService.antt =====
-- internal/service/hardening_service.go.
mod Operations
pub mod Downloads
pub mod Admission
unfoldable pub use Operations.*
