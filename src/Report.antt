-- ===== src/Report.antt =====
-- internal/service/hardening_report.go: the risk score of a strategy and the report of a
-- completed task.
mod Score
mod Build
pub mod Bounds
pub mod Monotone
unfoldable pub use Score.*
unfoldable pub use Build.*
