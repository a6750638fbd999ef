-- ===== src/RelationService/Members.antt =====
-- AddTenantMember, ChangeTenantRole, GrantEventRole, RevokeRole and ListMemberships of
-- internal/relation/application/relation.go.
use tolo_tenant_management.Prelude.{String, not, ◌&&◌, none, some, List, [], ◌∷◌, if◌then◌else◌}
use tolo_tenant_management.Text.{is_empty}
use tolo_tenant_management.Failure.{
  sentinel, is, user_id_required, scope_required, scope_ambiguous, filter_required,
  filter_ambiguous, context_missing, membership_not_found,
}
use tolo_tenant_management.Context.{Context, tenant_public_id_from_context}
use tolo_tenant_management.Domain.Role.{Role, grantable, is_owner}
use tolo_tenant_management.Domain.DisplayName
use tolo_tenant_management.Domain.Membership.{Membership}
use tolo_tenant_management.Exec.{Exec, pure, fail, lift, handle, ◌>>=◌, ◌>>◌}
use tolo_tenant_management.Repository.Memberships as Repository
use tolo_tenant_management.RelationService.Gates.{
  resolve_tenant, writable_tenant, writable_event, with_current_permission, keep_another_owner,
}

unfoldable pub add_tenant_member : Context → String → String → Role → String → Exec Membership
add_tenant_member ctx tenant_public_id user_id role display_name =
    if is_empty user_id then fail (sentinel user_id_required) else do
      lift (grantable role)
      name ← lift (DisplayName.parse display_name)
      tenant ← writable_tenant ctx tenant_public_id
      Repository.add_tenant_member ctx tenant.id user_id role name

-- the write of a tenant role; a role that is no owner's may not unseat the last owner
unfoldable pub set_role : String → String → Role → Context → Exec Membership
set_role tenant_id user_id role ctx = do
  if is_owner role then pure tt else keep_another_owner tenant_id user_id
  Repository.change_tenant_role ctx tenant_id user_id role

unfoldable pub change_tenant_role : Context → String → String → Role → Exec Membership
unfolding set_role
change_tenant_role ctx tenant_public_id user_id role =
    if is_empty user_id then fail (sentinel user_id_required) else do
      lift (grantable role)
      tenant ← writable_tenant ctx tenant_public_id
      with_current_permission ctx tenant.id (set_role tenant.id user_id role)

unfoldable pub grant_event_role : Context → String → String → Role → Exec Membership
grant_event_role ctx event_public_id user_id role =
    if is_empty user_id then fail (sentinel user_id_required) else do
      lift (grantable role)
      event ← writable_event ctx event_public_id
      with_current_permission ctx event.tenant_id
          (λ ctx'. Repository.grant_event_role ctx' event.id user_id role)

unfoldable pub remove_member : String → String → Context → Exec (Unit {0})
remove_member tenant_id user_id ctx = do
  keep_another_owner tenant_id user_id
  Repository.revoke_tenant_membership tenant_id user_id

unfoldable pub revoke_in_tenant : Context → String → String → Exec (Unit {0})
unfolding remove_member
revoke_in_tenant ctx tenant_public_id user_id = do
  tenant ← writable_tenant ctx tenant_public_id
  with_current_permission ctx tenant.id (remove_member tenant.id user_id)

unfoldable pub revoke_in_event : Context → String → String → Exec (Unit {0})
revoke_in_event ctx event_public_id user_id = do
  event ← writable_event ctx event_public_id
  with_current_permission ctx event.tenant_id
      (λ ctx'. Repository.revoke_event_role event.id user_id)

unfoldable pub revoke_role : Context → String → String → String → Exec (Unit {0})
unfolding revoke_in_tenant revoke_in_event
revoke_role ctx user_id tenant_public_id event_public_id =
    if is_empty user_id
    then fail (sentinel user_id_required)
    else if not (is_empty tenant_public_id) && not (is_empty event_public_id)
    then fail (sentinel scope_ambiguous)
    else if not (is_empty tenant_public_id)
    then revoke_in_tenant ctx tenant_public_id user_id
    else if not (is_empty event_public_id)
    then revoke_in_event ctx event_public_id user_id
    else fail (sentinel scope_required)

-- a user's membership as a list of one, or none
abbrev pub one_or_none : Exec Membership → Exec (List Membership)
one_or_none m =
    handle m (λ found. pure (found ∷ []))
      (λ e. if is e membership_not_found then pure [] else fail e)

unfoldable pub list_by_user : Context → String → Exec (List Membership)
list_by_user ctx user_id = elim (tenant_public_id_from_context ctx) [
  | none ↦ fail (sentinel context_missing)
  | some tenant_public_id ↦ do
    tenant ← resolve_tenant ctx tenant_public_id
    one_or_none (Repository.find_membership ctx tenant.id user_id)
]

unfoldable pub list_by_tenant : Context → String → Exec (List Membership)
list_by_tenant ctx tenant_public_id = do
  tenant ← resolve_tenant ctx tenant_public_id
  Repository.list_memberships_by_tenant ctx tenant.id

unfoldable pub list_memberships : Context → String → String → Exec (List Membership)
unfolding list_by_user list_by_tenant
list_memberships ctx tenant_public_id user_id =
    if not (is_empty tenant_public_id) && not (is_empty user_id)
    then fail (sentinel filter_ambiguous)
    else if not (is_empty tenant_public_id)
    then list_by_tenant ctx tenant_public_id
    else if not (is_empty user_id)
    then list_by_user ctx user_id
    else fail (sentinel filter_required)
