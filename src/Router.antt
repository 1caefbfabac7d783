-- ===== src/Router.antt =====
-- internal/router/router.go and internal/middleware: the routes, their guards, and what a request
-- goes through.
pub mod Routes
pub mod Guards
pub mod Handlers
pub mod Dispatch
pub mod Authorization
pub mod Policy
pub mod Entry
pub mod Requests
