-- ===== src/Witnesses/Removing.antt =====
-- The theorem on removals, where the owner removes the staff member of the sample tables.
use tolo_tenant_management.Prelude.{◌≡◌, refl}
use tolo_tenant_management.Failure.{Result, ok}
use tolo_tenant_management.Text
use tolo_tenant_management.Context
use tolo_tenant_management.Domain.Role
use tolo_tenant_management.Domain.Tenant
use tolo_tenant_management.Domain.Subdomain
use tolo_tenant_management.Exec
use tolo_tenant_management.Exec.{World}
use tolo_tenant_management.Authorizer
use tolo_tenant_management.Store.Memberships as StoreMemberships
use tolo_tenant_management.Store.Tenants as StoreTenants
use tolo_tenant_management.Repository.Tenants as RepositoryTenants
use tolo_tenant_management.Repository.Memberships as RepositoryMemberships
use tolo_tenant_management.RelationService.Gates
use tolo_tenant_management.RelationService.Members
use tolo_tenant_management.Transaction
use tolo_tenant_management.Sample.{db, world, member_of}
use tolo_tenant_management.Guarantees.Removal.{Removed, removal_is_complete}

abbrev removal_run : Result (Unit {0}) × World
removal_run = Members.revoke_role (member_of "p2" "ann") "bob" "p2" "" world

removal_run-ok : removal_run ≡ (ok tt, removal_run.1)
unfolding Members.revoke_role Members.revoke_in_tenant Members.remove_member Gates.writable_tenant
    Gates.resolve_tenant Gates.with_current_permission Gates.keep_another_owner Authorizer.require
    Authorizer.allowed Authorizer.current_role Context.subject_from_context Context.ensure
    Context.verify_ownership Context.tenant_public_id_from_context Context.nonblank Text.trim_space
    Role.parse Role.grants Subdomain.parse Tenant.parse
    RepositoryMemberships.lock_tenant_memberships RepositoryMemberships.find_tenant_role_for_share
    RepositoryMemberships.count_tenant_owners RepositoryMemberships.revoke_tenant_membership
    RepositoryTenants.find_tenant_by_public_id RepositoryTenants.find_tenant
    RepositoryTenants.tenant_of StoreMemberships.role_of StoreMemberships.count_owners
    StoreMemberships.delete StoreTenants.by_public_id Transaction.run_in_transaction Exec.handle
    Exec.statement Exec.lift Exec.pure Exec.fail
removal_run-ok = refl

removal_is_complete_example : Removed "p2" "bob" db removal_run.1.db
removal_is_complete_example =
    removal_is_complete (member_of "p2" "ann") "p2" "bob" world removal_run.1 removal_run-ok
