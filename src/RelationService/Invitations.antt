-- ===== src/RelationService/Invitations.antt =====
-- The invitations of internal/relation/application/relation.go.
use tolo_tenant_management.Prelude.{ℕ, ◌+◌, String, List, if◌then◌else◌}
use tolo_tenant_management.Text.{is_empty}
use tolo_tenant_management.Failure.{
  Err, sentinel, is, Result, ok, err, invitation_id_required, invitation_token_required,
  invitation_rejected, invitation_not_found, relation_tenant_id_required,
}
use tolo_tenant_management.Context.{Context}
use tolo_tenant_management.Domain.Role.{Role, invitable}
use tolo_tenant_management.Domain.DisplayName
use tolo_tenant_management.Domain.DisplayName.{DisplayName}
use tolo_tenant_management.Domain.Tenant.{Tenant, Hash}
use tolo_tenant_management.Domain.Invitation
use tolo_tenant_management.Domain.Invitation.{Invitation}
use tolo_tenant_management.Domain.Membership.{Membership}
use tolo_tenant_management.Token.{Platform, new_uuid, new_public_id, new_token, hash_of}
use tolo_tenant_management.Exec.{Exec, pure, fail, lift, map_error, ◌>>=◌, ◌>>◌}
use tolo_tenant_management.Transaction.{run_in_transaction}
use tolo_tenant_management.Repository.Tenants.{find_tenant_by_public_id}
use tolo_tenant_management.Repository.Memberships.{lock_tenant_memberships, add_tenant_member}
use tolo_tenant_management.Repository.Invitations.{
  create_invitation, list_open_invitations, find_invitation_for_update,
  find_invitation_by_token_for_update, mark_invitation_accepted, mark_invitation_revoked,
}
use tolo_tenant_management.TenantService.Onboarding.{required_subject}
use tolo_tenant_management.RelationService.Gates.{
  resolve_tenant, writable_tenant, with_current_permission, usable,
}

pub record CreateTenantInvitationInput : Type 0 where
  pub tenant_public_id : String
  pub role : Role
  pub display_name : String

pub record TenantInvitationCreation : Type 0 where
  pub invitation : Invitation
  pub token : String

abbrev pub new_invitation : String → String → Tenant → Role → DisplayName → ℕ → Invitation
new_invitation id public_id tenant role name expires_at = record {
  id = id;
  public_id = public_id;
  tenant_id = tenant.id;
  tenant_public_id = tenant.public_id;
  role = role;
  display_name = name;
  expires_at = expires_at;
  state = Invitation.pending;
}

-- the invitation is stored under the caller's current permission
unfoldable pub store_invitation :
    Context → Invitation → String × Hash → Exec TenantInvitationCreation
store_invitation ctx invitation (token, token_hash) = do
  with_current_permission ctx invitation.tenant_id (λ ctx'. create_invitation invitation token_hash)
  pure (record { invitation = invitation; token = token })

-- `ttl` is the service's `invitationTTL`.
unfoldable pub create_tenant_invitation :
    Platform → ℕ → Context → CreateTenantInvitationInput → Exec TenantInvitationCreation
unfolding store_invitation
create_tenant_invitation p ttl ctx input = do
  lift (invitable input.role)
  name ← lift (DisplayName.parse input.display_name)
  tenant ← writable_tenant ctx input.tenant_public_id
  id ← lift (new_uuid p)
  public_id ← lift (new_public_id p)
  token ← lift (new_token p)
  store_invitation ctx (new_invitation id public_id tenant input.role name (p.now + ttl)) token

unfoldable pub list_tenant_invitations : Platform → Context → String → Exec (List Invitation)
list_tenant_invitations p ctx tenant_public_id = do
  tenant ← resolve_tenant ctx tenant_public_id
  list_open_invitations tenant.id p.now

-- the work of the transaction
unfoldable pub revoke_one : Platform → String → String → Context → Exec Invitation
revoke_one p tenant_id invitation_id ctx = do
  invitation ← find_invitation_for_update tenant_id invitation_id
  revoked ← lift (Invitation.revoke invitation p.now)
  mark_invitation_revoked invitation.id p.now
  pure revoked

unfoldable pub revoke_tenant_invitation : Platform → Context → String → String → Exec Invitation
unfolding revoke_one
revoke_tenant_invitation p ctx tenant_public_id invitation_id =
    if is_empty invitation_id then fail (sentinel invitation_id_required) else do
      tenant ← writable_tenant ctx tenant_public_id
      run_in_transaction ctx (revoke_one p tenant.id invitation_id)

-- an invitation that cannot be accepted is rejected without a reason
abbrev pub judge : Result Invitation → Exec (Unit {0})
judge (ok _) = pure tt
judge (err _) = fail (sentinel invitation_rejected)

abbrev pub acceptable : Platform → Invitation → Exec (Unit {0})
acceptable p invitation = judge (Invitation.accept invitation p.now)

abbrev pub hidden_if_missing : Err → Err
hidden_if_missing e = if is e invitation_not_found then sentinel invitation_rejected else e

-- the work of the transaction
unfoldable pub accept_one : Platform → Tenant → String → String → Context → Exec Membership
accept_one p tenant subject token ctx = do
  lock_tenant_memberships tenant.id
  invitation ←
      map_error hidden_if_missing (find_invitation_by_token_for_update tenant.id (hash_of p token))
  acceptable p invitation
  usable tenant
  membership ← add_tenant_member ctx tenant.id subject invitation.role invitation.display_name
  mark_invitation_accepted invitation.id subject p.now
  pure membership

unfoldable pub accept_tenant_invitation : Platform → Context → String → String → Exec Membership
unfolding accept_one
accept_tenant_invitation p ctx tenant_public_id token =
    if is_empty tenant_public_id
    then fail (sentinel relation_tenant_id_required)
    else if is_empty token
    then fail (sentinel invitation_token_required)
    else do
      subject ← lift (required_subject ctx)
      tenant ← find_tenant_by_public_id ctx tenant_public_id
      run_in_transaction ctx (accept_one p tenant subject token)
