-- ===== src/Witnesses/Joining.antt =====
-- The theorems on what a membership is granted by, at the sample tables.
use tolo_tenant_management.Prelude.{◌≡◌, refl, []}
use tolo_tenant_management.Text
use tolo_tenant_management.Failure.{Result, ok}
use tolo_tenant_management.Context
use tolo_tenant_management.Domain.DisplayName
use tolo_tenant_management.Domain.Subdomain
use tolo_tenant_management.Domain.Role
use tolo_tenant_management.Domain.Tenant
use tolo_tenant_management.Domain.Invitation
use tolo_tenant_management.Domain.Membership.{Membership}
use tolo_tenant_management.Exec
use tolo_tenant_management.Exec.{World}
use tolo_tenant_management.Token
use tolo_tenant_management.Transaction
use tolo_tenant_management.Store.Checked.{Left}
use tolo_tenant_management.Store.Memberships as StoreMemberships
use tolo_tenant_management.Store.Memberships.Roster.{
  Write, changed, write, Effect, Same, roster, writes_refine_roster,
}
use tolo_tenant_management.Store.Tenants as StoreTenants
use tolo_tenant_management.Store.Invitations as StoreInvitations
use tolo_tenant_management.Repository.Tenants as RepositoryTenants
use tolo_tenant_management.Repository.Memberships as RepositoryMemberships
use tolo_tenant_management.Repository.Invitations as RepositoryInvitations
use tolo_tenant_management.RelationService.Invitations as RelationServiceInvitations
use tolo_tenant_management.Sample.{platform, db, world, registering}
use tolo_tenant_management.Guarantees.Acceptance.{Accepted, acceptance_is_verified}

abbrev acceptance_run : Result Membership × World
acceptance_run =
    RelationServiceInvitations.accept_tenant_invitation platform (registering "cy") "p2" "invite"
      world

abbrev cy : Membership
cy = record {
  user_id = "cy";
  tenant_id = "t2";
  tenant_public_id = "p2";
  tenant_role = Role.staff;
  display_name = record { value = "Cy" };
  joined_at = 99;
  event_roles = [];
}

acceptance_run-ok : acceptance_run ≡ (ok cy, acceptance_run.1)
unfolding RelationServiceInvitations.accept_tenant_invitation RelationServiceInvitations.accept_one
    Context.subject_from_context Context.verify_ownership DisplayName.parse Role.parse
    Role.to_string Role.grantable Subdomain.parse Tenant.parse Invitation.accept Text.trim_space
    RepositoryTenants.find_tenant_by_public_id RepositoryTenants.find_tenant
    RepositoryTenants.tenant_of RepositoryMemberships.lock_tenant_memberships
    RepositoryMemberships.add_tenant_member RepositoryMemberships.membership_of
    RepositoryInvitations.find_invitation_by_token_for_update RepositoryInvitations.find_invitation
    RepositoryInvitations.mark_invitation_accepted StoreMemberships.insert StoreMemberships.list
    StoreMemberships.list_event_roles StoreTenants.by_public_id Token.hash_of
    Transaction.run_in_transaction Exec.handle Exec.statement Exec.lift Exec.pure Exec.fail
    StoreInvitations.get StoreInvitations.mark_accepted
acceptance_run-ok = refl

acceptance_is_verified_example :
    Accepted platform (registering "cy") "p2" "invite" db acceptance_run.1.db
acceptance_is_verified_example =
    acceptance_is_verified platform (registering "cy") "p2" "invite" world cy acceptance_run.1
      acceptance_run-ok

-- bob is made an owner
abbrev promotion : Write
promotion = changed "t2" "bob" "owner"

writes_refine_roster_example :
    Left
      (λ n x. Effect promotion (roster db) n (roster x))
      (λ e x. Same (roster x) (roster db))
      (write promotion db)
writes_refine_roster_example = writes_refine_roster promotion db
