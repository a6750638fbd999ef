-- ===== src/RelationService.antt =====
-- The use cases of RelationAdminService: internal/relation/application/relation.go.
pub mod Gates
pub mod Members
pub mod Invitations
