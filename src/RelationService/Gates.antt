-- ===== src/RelationService/Gates.antt =====
-- What guards the writes of internal/relation/application/relation.go: the tenant boundary, the
-- state of the tenant and of the event, the caller's current permission, and the last owner.
use tolo_tenant_management.Prelude.{ℕ, String, not, leb, if◌then◌else◌}
use tolo_tenant_management.Text.{is_empty}
use tolo_tenant_management.Failure.{
  sentinel, is, relation_tenant_id_required, relation_event_id_required, relation_pending_owner,
  last_owner, tenant_archived, event_archived, membership_not_found,
}
use tolo_tenant_management.Context.{Context, ensure}
use tolo_tenant_management.Domain.Role.{Role, is_owner, scope_tenant_write}
use tolo_tenant_management.Domain.Tenant.{Tenant, is_owned}
use tolo_tenant_management.Domain.Event
use tolo_tenant_management.Domain.Event.{Event, same}
use tolo_tenant_management.Exec.{Exec, pure, fail, lift, handle, ◌>>=◌, ◌>>◌}
use tolo_tenant_management.Transaction.{run_in_transaction}
use tolo_tenant_management.Authorizer.{require}
use tolo_tenant_management.Repository.Tenants.{find_tenant_by_public_id}
use tolo_tenant_management.Repository.Events.{find_event_by_public_id}
use tolo_tenant_management.Repository.Memberships.{
  lock_tenant_memberships, find_tenant_role_for_share, count_tenant_owners,
}

unfoldable pub resolve_tenant : Context → String → Exec Tenant
resolve_tenant ctx tenant_public_id =
    if is_empty tenant_public_id
    then fail (sentinel relation_tenant_id_required)
    else do lift (ensure ctx tenant_public_id); find_tenant_by_public_id ctx tenant_public_id

-- a tenant that accepts membership writes
abbrev pub usable : Tenant → Exec (Unit {0})
usable tenant =
    if not (is_owned tenant.ownership_state)
    then fail (sentinel relation_pending_owner)
    else if tenant.archived
    then fail (sentinel tenant_archived)
    else pure tt

unfoldable pub writable_tenant : Context → String → Exec Tenant
unfolding resolve_tenant
writable_tenant ctx tenant_public_id = do
  tenant ← resolve_tenant ctx tenant_public_id
  usable tenant
  pure tenant

unfoldable pub writable_event : Context → String → Exec Event
unfolding writable_tenant
writable_event ctx event_public_id =
    if is_empty event_public_id then fail (sentinel relation_event_id_required) else do
      event ← find_event_by_public_id ctx event_public_id
      lift (ensure ctx event.tenant_public_id)
      if same event.status Event.archived
          then fail (sentinel event_archived)
          else do _ ← writable_tenant ctx event.tenant_public_id; pure event

-- the work of the transaction: the tenant's lock, the caller's permission, the write
unfoldable pub permitted_write : {A : Type 0} → String → (Context → Exec A) → Context → Exec A
permitted_write tenant_id write ctx = do
  lock_tenant_memberships tenant_id
  require ctx tenant_id scope_tenant_write
  write ctx

unfoldable pub with_current_permission :
    {A : Type 0} → Context → String → (Context → Exec A) → Exec A
unfolding permitted_write
with_current_permission ctx tenant_id write =
    run_in_transaction ctx (permitted_write tenant_id write)

abbrev pub not_last : ℕ → Exec (Unit {0})
not_last owners = if leb owners 1 then fail (sentinel last_owner) else pure tt

abbrev pub keep_owner : String → Role → Exec (Unit {0})
keep_owner tenant_id role =
    if not (is_owner role)
    then pure tt
    else do owners ← count_tenant_owners tenant_id; not_last owners

unfoldable pub keep_another_owner : String → String → Exec (Unit {0})
keep_another_owner tenant_id user_id =
    handle (find_tenant_role_for_share tenant_id user_id) (keep_owner tenant_id)
      (λ e. if is e membership_not_found then pure tt else fail e)
