-- ===== src/Http.antt =====
-- The HTTP layer: internal/handler and internal/pkg/response, with what they use of `strconv`.
pub mod Numbers
pub mod Reply
pub mod Accounts
pub mod Apps
pub mod Logs
pub mod Strategies
pub mod Hardening
pub mod Ranges
