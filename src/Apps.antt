-- ===== src/Apps.antt =====
-- internal/repository/app_repository.go, internal/service/app_service.go and
-- internal/pkg/manifest/parser.go.
pub mod Repository
pub mod Service
pub mod Deletion
pub mod Naming
pub mod Uploads
