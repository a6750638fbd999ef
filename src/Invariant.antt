-- ===== src/Invariant.antt =====
-- What holds of the tables at all times, whatever the calls and the faults.
pub mod Others
pub mod Lookup
pub mod LastOwner
pub mod Owners
pub mod Reads
pub mod TenantCalls
pub mod RelationCalls
pub mod Tenants
pub mod Writes
pub mod Memberships
use tolo_tenant_management.Prelude.{
  ℕ, ◌<◌, ◌≡◌, String, ◌&&◌, Bool, true, false, List, str_eq, any, count_of, All, Distinct,
}
use tolo_tenant_management.Store.{TenantRow, MembershipRow, EventRoleRow, EventRow, Db}
use tolo_tenant_management.Store.Tenants.{claim_consistent, subdomain_consistent}
use tolo_tenant_management.Store.Memberships.{is_member, is_owner_of}

abbrev pub same_tenant : TenantRow → TenantRow → Bool
same_tenant a b = str_eq b.id a.id

abbrev pub same_member : MembershipRow → MembershipRow → Bool
same_member a b = is_member a.tenant_id a.user_id b

-- a tenant that is owned has an owner among the memberships
abbrev pub HasOwner : List MembershipRow → TenantRow → Type 0
HasOwner ms t = str_eq t.ownership_state "owned" ≡ true → 0 < count_of (is_owner_of t.id) ms

-- whoever holds a role on an event belongs to the tenant that the role is filed under
abbrev pub OfMember : List MembershipRow → EventRoleRow → Type 0
OfMember ms r = any (is_member r.tenant_id r.user_id) ms ≡ true

abbrev pub same_event : EventRow → EventRow → Bool
same_event a b = str_eq b.id a.id

abbrev pub is_event_of : String → String → EventRow → Bool
is_event_of event_id tenant_id e = str_eq e.id event_id && str_eq e.tenant_id tenant_id

-- the event of a role is one of the tenant that the role is filed under
abbrev pub OfEvent : List EventRow → EventRoleRow → Type 0
OfEvent es r = any (is_event_of r.event_id r.tenant_id) es ≡ true

-- A claim is there exactly while the tenant is pending, and a subdomain exactly when it is owned.
abbrev pub IsConsistent : TenantRow → Type 0
IsConsistent t = (claim_consistent t ≡ true) × (subdomain_consistent t ≡ true)

pub record IsSound (d : Db) : Type 0 where
  pub tenant_ids : Distinct same_tenant d.tenants
  pub member_keys : Distinct same_member d.memberships
  pub owners : All (HasOwner d.memberships) d.tenants
  pub role_holders : All (OfMember d.memberships) d.event_roles
  pub event_ids : Distinct same_event d.events
  pub role_events : All (OfEvent d.events) d.event_roles
  pub consistent : All IsConsistent d.tenants
