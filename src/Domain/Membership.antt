-- ===== src/Domain/Membership.antt =====
-- internal/relation/domain/membership.go.
use tolo_tenant_management.Prelude.{ℕ, String, List}
use tolo_tenant_management.Domain.Role.{Role}
use tolo_tenant_management.Domain.DisplayName.{DisplayName}

pub record EventRole : Type 0 where
  pub event_id : String
  pub event_public_id : String
  pub role : Role

pub record Membership : Type 0 where
  pub user_id : String
  pub tenant_id : String
  pub tenant_public_id : String
  pub tenant_role : Role
  pub display_name : DisplayName
  pub joined_at : ℕ
  pub event_roles : List EventRole
