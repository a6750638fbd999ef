-- ===== src/TenantService.antt =====
-- The use cases of TenantService: internal/tenant/application/tenant.go.
pub mod Onboarding
pub mod Administration
pub mod Events
