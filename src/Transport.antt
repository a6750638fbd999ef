-- ===== src/Transport.antt =====
-- What leaves the process: the Connect services (internal/infra/connect/error.go and
-- internal/*/infra/connect) and the plain HTTP API (internal/relation/infra/httpapi).
pub mod Errors
pub mod Tenant
pub mod Relation
pub mod Http
