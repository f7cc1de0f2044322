-- ===== src/Central.antt =====
-- crates/elan-central: the catalog, the policies and the audit log, behind gRPC services.
pub mod Database
pub mod IamStore
pub mod IamService
pub mod CatalogStore
pub mod CatalogService
pub mod CoordinatorService
pub mod AuditService
pub mod Main
