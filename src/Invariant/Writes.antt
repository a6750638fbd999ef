-- ===== src/Invariant/Writes.antt =====
-- The repositories' writes keep the tables sound.
use tolo_tenant_management.Prelude.{ℕ, ◌≡◌, refl, String, Bool, true, false, arith, str_eq}
use tolo_tenant_management.Context.{Context}
use tolo_tenant_management.Domain.Tenant.{
  Tenant, OwnershipClaim, is_pending_owner, pending_owner, OwnershipState, unspecified, owned,
  other,
}
use tolo_tenant_management.Domain.Tenant
use tolo_tenant_management.Domain.Event.{Event}
use tolo_tenant_management.Domain.Role.{Role}
use tolo_tenant_management.Domain.DisplayName.{DisplayName}
use tolo_tenant_management.Domain.Invitation.{Invitation}
use tolo_tenant_management.Domain.Tenant.{Hash}
use tolo_tenant_management.Store.Invitations as InvitationSql
use tolo_tenant_management.Exec.Triple.{Keeps, Keeps-statement, Keeps-fail}
use tolo_tenant_management.Repository.Tenants as Tenants
use tolo_tenant_management.Repository.Events as Events
use tolo_tenant_management.Repository.Memberships as Memberships
use tolo_tenant_management.Repository.Invitations as Invitations
use tolo_tenant_management.Invariant.{IsSound}
use tolo_tenant_management.Invariant.Tenants.{
  insert-IsSound, delete_expired-IsSound, set_plan_archived-IsSound,
}
use tolo_tenant_management.Invariant.Memberships as Members
use tolo_tenant_management.Invariant.Memberships.{
  Unseatable, set_role-IsSound, delete-IsSound, delete_event_role-IsSound,
  upsert_event_role-IsSound,
}
use tolo_tenant_management.Invariant.Others.{
  insert_event-IsSound, update_event-IsSound, insert_invitation-IsSound, update_invitation-IsSound,
}
use tolo_tenant_management.Invariant.Reads.{read_rules}

pending-not_owned :
    (s : OwnershipState) → is_pending_owner s ≡ true → str_eq (Tenant.to_string s) "owned" ≡ false
unfolding Tenant.to_string
pending-not_owned pending_owner h = refl
pending-not_owned unspecified h = ground arith
pending-not_owned owned h = ground arith
pending-not_owned (other n) h = ground arith

ruleset write_rules = (
  read_rules, Keeps-statement, insert-IsSound, delete_expired-IsSound, set_plan_archived-IsSound,
  insert_event-IsSound, update_event-IsSound, Members.insert-IsSound, upsert_event_role-IsSound,
  delete_event_role-IsSound, insert_invitation-IsSound, update_invitation-IsSound,
)

create_pending :
    (t : Tenant) (claim : OwnershipClaim) (b : Bool)
    → is_pending_owner t.ownership_state ≡ b
    → Keeps IsSound (Tenants.create_pending_tenant t claim)
unfolding Tenants.create_pending_tenant
create_pending t claim false e = rw (e, Tenants.create_pending_tenant) (Keeps-fail _)
create_pending t claim true e =
    let fresh = pending-not_owned t.ownership_state e in
    rw (e, Tenants.create_pending_tenant) (search (write_rules, fresh))

pub Keeps-create_pending_tenant :
    (t : Tenant) (claim : OwnershipClaim) → Keeps IsSound (Tenants.create_pending_tenant t claim)
Keeps-create_pending_tenant t claim = create_pending t claim _ refl

pub Keeps-delete_expired : (now : ℕ) → Keeps IsSound (Tenants.delete_expired_pending_tenants now)
unfolding Tenants.delete_expired_pending_tenants
Keeps-delete_expired now = search write_rules

pub Keeps-update_tenant : (t : Tenant) → Keeps IsSound (Tenants.update_tenant t)
unfolding Tenants.update_tenant
Keeps-update_tenant t = search write_rules

pub Keeps-create_event : (ctx : Context) (e : Event) → Keeps IsSound (Events.create_event ctx e)
unfolding Events.create_event
Keeps-create_event ctx e = search write_rules depth 12

pub Keeps-update_event : (ctx : Context) (e : Event) → Keeps IsSound (Events.update_event ctx e)
unfolding Events.update_event
Keeps-update_event ctx e = search write_rules depth 12

pub Keeps-add_tenant_member :
    (ctx : Context) (tenant_id user_id : String) (role : Role) (name : DisplayName)
    → Keeps IsSound (Memberships.add_tenant_member ctx tenant_id user_id role name)
unfolding Memberships.add_tenant_member
Keeps-add_tenant_member ctx tenant_id user_id role name = search write_rules depth 12

pub Keeps-grant_event_role :
    (ctx : Context) (event_id user_id : String) (role : Role)
    → Keeps IsSound (Memberships.grant_event_role ctx event_id user_id role)
unfolding Memberships.grant_event_role
Keeps-grant_event_role ctx event_id user_id role = search write_rules depth 12

pub Keeps-revoke_event_role :
    (event_id user_id : String) → Keeps IsSound (Memberships.revoke_event_role event_id user_id)
unfolding Memberships.revoke_event_role
Keeps-revoke_event_role event_id user_id = search write_rules

pub Keeps-create_invitation :
    (i : Invitation) (token_hash : Hash)
    → Keeps IsSound (Invitations.create_invitation i token_hash)
unfolding Invitations.create_invitation
Keeps-create_invitation i token_hash = search write_rules

pub Keeps-mark_accepted :
    (id user_id : String) (at : ℕ)
    → Keeps IsSound (Invitations.mark_invitation_accepted id user_id at)
unfolding Invitations.mark_invitation_accepted InvitationSql.mark_accepted
Keeps-mark_accepted id user_id at = search write_rules

pub Keeps-mark_revoked :
    (id : String) (at : ℕ) → Keeps IsSound (Invitations.mark_invitation_revoked id at)
unfolding Invitations.mark_invitation_revoked InvitationSql.mark_revoked
Keeps-mark_revoked id at = search write_rules
