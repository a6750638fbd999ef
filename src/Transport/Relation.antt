-- ===== src/Transport/Relation.antt =====
-- internal/relation/infra/connect/service.go. A request is its getters.
pub mod Roles
use tolo_tenant_management.Prelude.{ℕ, String, List, [], ◌∷◌, map}
use tolo_tenant_management.Failure.{
  context_mismatch, context_missing, display_name_required, display_name_too_long, event_archived,
  event_not_found, event_role_not_found, filter_ambiguous, filter_required, invitation_id_required,
  invitation_not_found, invitation_not_pending, invitation_public_id_exists, invitation_rejected,
  invitation_token_required, last_owner, membership_exists, membership_not_found,
  membership_required, relation_event_id_required, relation_event_not_found, relation_pending_owner,
  relation_permission_denied, relation_tenant_id_required, relation_tenant_not_found,
  role_not_invitable, role_required, role_reserved, scope_ambiguous, scope_required,
  subject_missing, tenant_archived, tenant_not_found, transaction_aborted, user_id_required,
}
use tolo_tenant_management.Context.{Context}
use tolo_tenant_management.Domain.Role
use tolo_tenant_management.Domain.Membership.{Membership, EventRole}
use tolo_tenant_management.Domain.Invitation.{Invitation}
use tolo_tenant_management.Token.{Platform}
use tolo_tenant_management.Exec.{World, Exec}
use tolo_tenant_management.RelationService.Members
use tolo_tenant_management.RelationService.Invitations
use tolo_tenant_management.Transport.Errors.{
  ClientError, told, Response, respond, aborted, already_exists, failed_precondition,
  invalid_argument, not_found, permission_denied, unauthenticated,
}

abbrev pub client_errors : List ClientError
client_errors =
    told relation_tenant_id_required invalid_argument "tenant_id is required"
    ∷ told relation_event_id_required invalid_argument "event_id is required"
    ∷ told user_id_required invalid_argument "user_id is required"
    ∷ told scope_required invalid_argument "scope is required"
    ∷ told scope_ambiguous invalid_argument "scope must name either a tenant or an event"
    ∷ told filter_required invalid_argument "filter is required"
    ∷ told filter_ambiguous invalid_argument "filter must name either a tenant or a user"
    ∷ told role_required invalid_argument "role is required"
    ∷ told role_reserved invalid_argument "role is reserved and cannot be granted"
    ∷ told invitation_id_required invalid_argument "invitation_id is required"
    ∷ told invitation_token_required invalid_argument "invitation_token is required"
    ∷ told role_not_invitable invalid_argument "invitations grant the staff role only"
    ∷ told display_name_required invalid_argument "display_name is required"
    ∷ told display_name_too_long invalid_argument "display_name is too long"
    ∷ told tenant_not_found not_found "tenant not found"
    ∷ told event_not_found not_found "event not found"
    ∷ told relation_tenant_not_found not_found "tenant not found"
    ∷ told relation_event_not_found not_found "event not found"
    ∷ told membership_not_found not_found "membership not found"
    ∷ told invitation_not_found not_found "invitation not found"
    ∷ told invitation_public_id_exists already_exists
        "generated invitation ID already exists; retry the request"
    ∷ told invitation_not_pending failed_precondition "invitation is accepted, revoked, or expired"
    ∷ told invitation_rejected permission_denied "invitation token is invalid"
    ∷ told event_role_not_found not_found "event role not found"
    ∷ told tenant_archived failed_precondition "tenant is archived"
    ∷ told event_archived failed_precondition "event is archived"
    ∷ told relation_pending_owner failed_precondition "tenant is pending an owner"
    ∷ told last_owner failed_precondition "the tenant must keep at least one owner"
    ∷ told membership_exists failed_precondition "membership already exists"
    ∷ told membership_required failed_precondition
        "event role requires membership of the event's tenant"
    ∷ told context_mismatch permission_denied "tenant does not match the token"
    ∷ told relation_permission_denied permission_denied "permission denied"
    ∷ told context_missing unauthenticated "tenant ID is missing from the token"
    ∷ told subject_missing unauthenticated "subject is missing from the token"
    ∷ told transaction_aborted aborted "transaction aborted; retry the request"
    ∷ []

-- an open enum: `other n` is any number that no value is declared for
pub data WireRole : Type 0 where
  unspecified owner staff admin : WireRole
  other : ℕ → WireRole

unfoldable pub role_domain : WireRole → Role.Role
role_domain unspecified = Role.unspecified
role_domain owner = Role.owner
role_domain staff = Role.staff
role_domain admin = Role.admin
role_domain (other n) = Role.unspecified

unfoldable pub role_proto : Role.Role → WireRole
role_proto Role.unspecified = unspecified
role_proto Role.owner = owner
role_proto Role.staff = staff
role_proto Role.admin = admin
role_proto (Role.other n) = unspecified

pub record EventRoleMessage : Type 0 where
  pub event_id : String
  pub role : WireRole

pub record MembershipMessage : Type 0 where
  pub user_id : String
  pub tenant_id : String
  pub tenant_role : WireRole
  pub event_roles : List EventRoleMessage
  pub display_name : String
  pub joined_at : ℕ

pub record InvitationMessage : Type 0 where
  pub invitation_id : String
  pub tenant_id : String
  pub tenant_role : WireRole
  pub display_name : String
  pub expires_at : ℕ

abbrev pub event_role_proto : EventRole → EventRoleMessage
event_role_proto r = record { event_id = r.event_public_id; role = role_proto r.role }

unfoldable pub membership_proto : Membership → MembershipMessage
unfolding role_proto
membership_proto m = record {
  user_id = m.user_id;
  tenant_id = m.tenant_public_id;
  tenant_role = role_proto m.tenant_role;
  event_roles = map event_role_proto m.event_roles;
  display_name = m.display_name.value;
  joined_at = m.joined_at;
}

unfoldable pub invitation_proto : Invitation → InvitationMessage
unfolding role_proto
invitation_proto i = record {
  invitation_id = i.public_id;
  tenant_id = i.tenant_public_id;
  tenant_role = role_proto i.role;
  display_name = i.display_name.value;
  expires_at = i.expires_at;
}

abbrev pub creation_proto : Invitations.TenantInvitationCreation → InvitationMessage × String
creation_proto c = (invitation_proto c.invitation, c.token)

-- `ttl` is the service's `invitationTTL`.
unfoldable pub create_tenant_invitation :
    Platform
    → ℕ
    → Context
    → String
    → WireRole
    → String
    → World
    → Response (InvitationMessage × String) × World
unfolding role_domain
create_tenant_invitation p ttl ctx tenant_id tenant_role display_name =
    respond client_errors creation_proto (
      Invitations.create_tenant_invitation p ttl ctx (record {
        tenant_public_id = tenant_id;
        role = role_domain tenant_role;
        display_name = display_name;
      }))

unfoldable pub list_tenant_invitations :
    Platform → Context → String → World → Response (List InvitationMessage) × World
unfolding invitation_proto
list_tenant_invitations p ctx tenant_id =
    respond client_errors (map invitation_proto)
      (Invitations.list_tenant_invitations p ctx tenant_id)

unfoldable pub revoke_tenant_invitation :
    Platform → Context → String → String → World → Response InvitationMessage × World
revoke_tenant_invitation p ctx tenant_id invitation_id =
    respond client_errors invitation_proto
      (Invitations.revoke_tenant_invitation p ctx tenant_id invitation_id)

unfoldable pub accept_tenant_invitation :
    Platform → Context → String → String → World → Response MembershipMessage × World
accept_tenant_invitation p ctx tenant_id invitation_token =
    respond client_errors membership_proto
      (Invitations.accept_tenant_invitation p ctx tenant_id invitation_token)

unfoldable pub add_tenant_member :
    Context → String → String → WireRole → String → World → Response MembershipMessage × World
unfolding role_domain
add_tenant_member ctx tenant_id user_id tenant_role display_name =
    respond client_errors membership_proto
      (Members.add_tenant_member ctx tenant_id user_id (role_domain tenant_role) display_name)

unfoldable pub change_tenant_role :
    Context → String → String → WireRole → World → Response MembershipMessage × World
unfolding role_domain
change_tenant_role ctx tenant_id user_id tenant_role =
    respond client_errors membership_proto
      (Members.change_tenant_role ctx tenant_id user_id (role_domain tenant_role))

unfoldable pub grant_event_role :
    Context → String → String → WireRole → World → Response MembershipMessage × World
unfolding role_domain
grant_event_role ctx event_id user_id role =
    respond client_errors membership_proto
      (Members.grant_event_role ctx event_id user_id (role_domain role))

unfoldable pub revoke_role :
    Context → String → String → String → World → Response (Unit {0}) × World
revoke_role ctx user_id tenant_id event_id =
    respond client_errors (λ _. tt) (Members.revoke_role ctx user_id tenant_id event_id)

unfoldable pub list_memberships :
    Context → String → String → World → Response (List MembershipMessage) × World
unfolding membership_proto
list_memberships ctx tenant_id user_id =
    respond client_errors (map membership_proto) (Members.list_memberships ctx tenant_id user_id)
