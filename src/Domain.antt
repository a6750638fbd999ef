-- ===== src/Domain.antt =====
-- The immutable models of internal/tenant/domain and internal/relation/domain.
pub mod Enum
pub mod Role
pub mod DisplayName
pub mod Invitation
pub mod Membership
pub mod Event
pub mod Subdomain
pub mod Tenant
