-- ===== src/Users.antt =====
-- internal/repository/user_repository.go, internal/service/user_service.go,
-- internal/service/auth_service.go, internal/pkg/hash and internal/pkg/jwtutil.
pub mod Repository
pub mod Tokens
pub mod Service
pub mod Login
pub mod Emails
pub mod Sessions
pub mod Creation
pub mod Seed
