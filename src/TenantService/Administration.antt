-- ===== src/TenantService/Administration.antt =====
-- ChangeTenantContract, ArchiveTenant and resolveTenant of internal/tenant/application/tenant.go.
use tolo_tenant_management.Prelude.{String, Bool, not, if◌then◌else◌}
use tolo_tenant_management.Text.{is_empty}
use tolo_tenant_management.Failure.{
  sentinel, Result, ok, contract_plan_required, tenant_id_required, tenant_pending_owner,
  permission_denied, tenant_archived,
}
use tolo_tenant_management.Context.{Context, ensure}
use tolo_tenant_management.Domain.Role.{scope_tenant_write}
use tolo_tenant_management.Domain.Tenant.{Tenant, is_owned, change_contract_plan, archive}
use tolo_tenant_management.Exec.{Exec, pure, fail, lift, ◌>>=◌, ◌>>◌}
use tolo_tenant_management.Transaction.{run_in_transaction}
use tolo_tenant_management.Authorizer.{allowed}
use tolo_tenant_management.Repository.Tenants.{
  find_tenant_by_public_id_for_update, update_tenant, find_tenant_by_public_id,
}

-- the write that the caller's current role is checked for
unfoldable pub write_permitted : (Tenant → Result Tenant) → Tenant → Bool → Exec Tenant
write_permitted mutate tenant permitted =
    if not permitted
    then fail (sentinel permission_denied)
    else do updated ← lift (mutate tenant); update_tenant updated; pure updated

-- the work of the transaction
unfoldable pub administer : String → (Tenant → Result Tenant) → Context → Exec Tenant
unfolding write_permitted
administer tenant_public_id mutate ctx = do
  (tenant, _) ← find_tenant_by_public_id_for_update ctx tenant_public_id
  if not (is_owned tenant.ownership_state)
      then fail (sentinel tenant_pending_owner)
      else if tenant.archived
      then fail (sentinel tenant_archived)
      else do
        permitted ← allowed ctx tenant.id scope_tenant_write
        write_permitted mutate tenant permitted

unfoldable pub administer_tenant : Context → String → (Tenant → Result Tenant) → Exec Tenant
unfolding administer
administer_tenant ctx tenant_public_id mutate =
    if is_empty tenant_public_id then fail (sentinel tenant_id_required) else do
      lift (ensure ctx tenant_public_id)
      run_in_transaction ctx (administer tenant_public_id mutate)

unfoldable pub change_tenant_contract : Context → String → String → Exec Tenant
unfolding administer_tenant
change_tenant_contract ctx tenant_public_id contract_plan =
    if is_empty contract_plan
    then fail (sentinel contract_plan_required)
    else administer_tenant ctx tenant_public_id (λ t. ok (change_contract_plan t contract_plan))

unfoldable pub archive_tenant : Context → String → Exec Tenant
unfolding administer_tenant
archive_tenant ctx tenant_public_id = administer_tenant ctx tenant_public_id archive

unfoldable pub resolve_tenant : Context → String → Exec Tenant
resolve_tenant ctx tenant_public_id =
    if is_empty tenant_public_id then fail (sentinel tenant_id_required) else do
      lift (ensure ctx tenant_public_id)
      tenant ← find_tenant_by_public_id ctx tenant_public_id
      if not (is_owned tenant.ownership_state)
          then fail (sentinel tenant_pending_owner)
          else pure tenant
