-- ===== src/Transport/Relation/Roles.antt =====
-- Roles on the wire: roleDomain and roleProto of internal/relation/infra/connect/service.go, and the
-- roles that no call grants.
use tolo_tenant_management.Prelude.{ℕ, ◌≡◌, refl, String, false, Option, none, some, []}
use tolo_tenant_management.Text.{is_empty}
use tolo_tenant_management.Failure
use tolo_tenant_management.Failure.{Err, sentinel, role_required, role_reserved}
use tolo_tenant_management.Context.{Context}
use tolo_tenant_management.Exec
use tolo_tenant_management.Exec.{World}
use tolo_tenant_management.Domain.Role
use tolo_tenant_management.Domain.Role.Names
use tolo_tenant_management.RelationService.Members
use tolo_tenant_management.Transport.Errors
use tolo_tenant_management.Transport.Errors.{Response, refused}
use tolo_tenant_management.Transport.Relation
use tolo_tenant_management.Transport.Relation.{
  WireRole, unspecified, owner, staff, admin, other, role_domain, role_proto, MembershipMessage,
}

-- what is said of a role that cannot be granted
abbrev pub complaint : WireRole → Option String
complaint owner = none
complaint staff = none
complaint admin = some "role is reserved and cannot be granted"
complaint unspecified = some "role is required"
complaint (other n) = some "role is required"

-- the error behind it
abbrev pub complaint_cause : WireRole → Err
complaint_cause admin = sentinel role_reserved
complaint_cause _ = sentinel role_required

-- a number that a role is declared for
abbrev pub IsDeclared : WireRole → Type 0
IsDeclared (other n) = ⊥
IsDeclared _ = Unit

-- A declared role of the domain is read back from the wire, and a declared role of the wire from the
-- domain; every other value is the unspecified role on the other side.
pub wire_role_round_trip :
    (r : Role.Role) (w : WireRole)
    → (Names.IsDeclared r → role_domain (role_proto r) ≡ r)
      × (IsDeclared w → role_proto (role_domain w) ≡ w)
      × ((n : ℕ)
          → (role_proto (Role.other n) ≡ unspecified) × (role_domain (other n) ≡ Role.unspecified))
unfolding role_domain role_proto
wire_role_round_trip r w = (domain r, wire w, λ n. (refl, refl))
  where
    domain : (r : Role.Role) → Names.IsDeclared r → role_domain (role_proto r) ≡ r
    domain Role.unspecified h = refl
    domain Role.owner h = refl
    domain Role.staff h = refl
    domain Role.admin h = refl
    domain (Role.other n) h = elim h [ ]

    wire : (w : WireRole) → IsDeclared w → role_proto (role_domain w) ≡ w
    wire unspecified h = refl
    wire owner h = refl
    wire staff h = refl
    wire admin h = refl
    wire (other n) h = elim h [ ]

-- the client's error about a role
abbrev pub role_refused : {A : Type 0} → WireRole → String → Response A
role_refused role message =
    refused (
      record { code = Errors.invalid_argument; message = message; cause = complaint_cause role },
      [],
    )

-- A role that is unspecified, undeclared or reserved is refused as an invalid argument by every call
-- that grants a role, with the same message, and no statement is made: for any caller, tenant and
-- event, and a user who is named.
pub ungrantable_role_is_refused :
    (ctx : Context) (scope user_id name message : String) (role : WireRole) (w : World)
    → is_empty user_id ≡ false
    → complaint role ≡ some message
    → (Relation.add_tenant_member ctx scope user_id role name w ≡ (role_refused role message, w))
      × (Relation.change_tenant_role ctx scope user_id role w ≡ (role_refused role message, w))
      × (Relation.grant_event_role ctx scope user_id role w ≡ (role_refused role message, w))
unfolding Relation.add_tenant_member Relation.change_tenant_role Relation.grant_event_role
    role_domain Members.add_tenant_member Members.change_tenant_role Members.grant_event_role
    Role.grantable Errors.for_error Exec.handle Exec.lift Failure.is
ungrantable_role_is_refused ctx scope user_id name message owner w named h = cc
ungrantable_role_is_refused ctx scope user_id name message staff w named h = cc
ungrantable_role_is_refused ctx scope user_id name message admin w named h = rw named (cc, cc, cc)
ungrantable_role_is_refused ctx scope user_id name message unspecified w named h =
    rw named (cc, cc, cc)
ungrantable_role_is_refused ctx scope user_id name message (other n) w named h =
    rw named (cc, cc, cc)
