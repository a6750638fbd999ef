-- ===== src/Witnesses.antt =====
-- The theorems at the sample tables and callers.
mod Transport
mod Aborting
mod Joining
mod Reads
mod Logging
mod Registering
mod Removing
mod Server
use tolo_tenant_management.Prelude.{
  ◌<◌, ◌≤◌, ◌≡◌, refl, ◌⊎◌, inl, false, none, some, [], arith, ◌↔◌, All,
}
use tolo_tenant_management.Failure.{
  sentinel, Result, ok, err, last_owner, invalid_subdomain, invitation_not_pending,
}
use tolo_tenant_management.Context.{Context}
use tolo_tenant_management.Store.{Db, TenantRow}
use tolo_tenant_management.Domain.Tenant.{Tenant}
use tolo_tenant_management.Domain.Invitation.{Invitation}
use tolo_tenant_management.Domain.DisplayName.{DisplayName}
use tolo_tenant_management.Domain.Event.{Event}
use tolo_tenant_management.Domain.Event.Names.{event_status_round_trip}
use tolo_tenant_management.Domain.Role.Names.{role_round_trip}
use tolo_tenant_management.Domain.Tenant.Names.{ownership_state_round_trip}
use tolo_tenant_management.Exec.{World}
use tolo_tenant_management.Sample.{platform, zeros, db, world, registering, member_of}
use tolo_tenant_management.Invariant.{IsSound}
use tolo_tenant_management.System.{
  Service, Call, after, serve, Reachable, initially, then_, served, empty,
}
use tolo_tenant_management.System.Safety.{Reachable-IsSound, owners_remain}
use tolo_tenant_management.Guarantees.Admission.{Admitted}
use tolo_tenant_management.Guarantees.Administration.{
  tenant, archiving, administration_is_permitted,
}
use tolo_tenant_management.Guarantees.Claim.{Claimed, claim_is_verified}
use tolo_tenant_management.Domain.Event.Lifecycle.{transition_to_iff, Allowed}
use tolo_tenant_management.Domain.Invitation.Closed.{closed_for_good}
use tolo_tenant_management.Domain.DisplayName.Normal.{display_name_normal}
use tolo_tenant_management.Token.PublicId.{public_id_no_subdomain}
use tolo_tenant_management.Authorizer
use tolo_tenant_management.Context
use tolo_tenant_management.Domain.DisplayName as DomainDisplayName
use tolo_tenant_management.Domain.Event as DomainEvent
use tolo_tenant_management.Domain.Invitation as DomainInvitation
use tolo_tenant_management.Domain.Role as DomainRole
use tolo_tenant_management.Domain.Subdomain as DomainSubdomain
use tolo_tenant_management.Domain.Tenant as DomainTenant
use tolo_tenant_management.RelationService.Gates as RelationServiceGates
use tolo_tenant_management.RelationService.Members as RelationServiceMembers
use tolo_tenant_management.Repository.Memberships as RepositoryMemberships
use tolo_tenant_management.Repository.Tenants as RepositoryTenants
use tolo_tenant_management.Store.Memberships as StoreMemberships
use tolo_tenant_management.Store.Tenants as StoreTenants
use tolo_tenant_management.System
use tolo_tenant_management.TenantService.Administration as TenantServiceAdministration
use tolo_tenant_management.TenantService.Onboarding as TenantServiceOnboarding
use tolo_tenant_management.Text
use tolo_tenant_management.Token
use tolo_tenant_management.Transaction

abbrev service : Service
service = record { ownership_claim_ttl = 50; invitation_ttl = 70 }

abbrev claim_input : TenantServiceOnboarding.ClaimTenantOwnershipInput
claim_input = record {
  tenant_public_id = "p1";
  claim_token = "token";
  subdomain = "acme";
  display_name = " Cy ";
}

abbrev claim_call : Call
claim_call = System.claim_ownership platform (registering "cy") claim_input

db-IsSound : IsSound db
db-IsSound = record {
  tenant_ids = (refl, (refl, tt));
  member_keys = (refl, (refl, tt));
  owners = (λ h. ground arith, (λ h. omega arith, tt));
  role_holders = (refl, tt);
  event_ids = (refl, tt);
  role_events = (refl, tt);
  consistent = ((refl, refl), ((refl, refl), tt));
}

Reachable-IsSound_example : IsSound (after service claim_call [] db)
Reachable-IsSound_example =
    Reachable-IsSound service db (after service claim_call [] db) db-IsSound
      (then_ initially (served claim_call [] db))

-- the worlds that the sample calls leave
abbrev claim_run : Result Tenant × World
claim_run =
    TenantServiceOnboarding.claim_tenant_ownership platform (registering "cy") claim_input world

abbrev acme : Tenant
acme = record {
  id = "t1";
  public_id = "p1";
  name = "Acme";
  contract_plan = "basic";
  ownership_state = DomainTenant.owned;
  subdomain = record { value = "acme" };
  archived = false;
}

claim_run-ok : claim_run ≡ (ok acme, claim_run.1)
unfolding Context.subject_from_context Context.verify_ownership DomainDisplayName.parse
    DomainRole.parse DomainRole.grantable DomainSubdomain.parse DomainTenant.parse
    DomainTenant.claim_ownership RepositoryMemberships.add_owner
    RepositoryTenants.find_tenant_by_public_id_for_update RepositoryTenants.mark_tenant_owned
    StoreMemberships.insert StoreMemberships.list StoreMemberships.list_event_roles
    StoreTenants.mark_owned StoreTenants.by_public_id TenantServiceOnboarding.claim_tenant_ownership
    Transaction.run_in_transaction
claim_run-ok = refl

claim_is_verified_example : Claimed platform (registering "cy") claim_input db acme claim_run.1.db
claim_is_verified_example =
    claim_is_verified platform (registering "cy") claim_input world acme claim_run.1 claim_run-ok

-- a registration in the empty tables, and its claim with the token that it answered
abbrev register_call : Call
register_call =
    System.start_registration platform (record { name = "Acme"; contract_plan = "basic" })

abbrev first_claim : Call
first_claim = System.claim_ownership platform (registering "cy") (record {
  tenant_public_id = "0000000000000000";
  claim_token = "BwAAAAAAAAAAAAAAAAAAAAAAAAAAAAAAAAAAAAAAAAA";
  subdomain = "acme";
  display_name = "Cy";
})

abbrev registered : Db
registered = after service register_call [] empty

abbrev first_claimed : Db
first_claimed = after service first_claim [] registered

abbrev acme_row : TenantRow
acme_row = record {
  id = "u-new";
  public_id = "0000000000000000";
  name = "Acme";
  contract_plan = "basic";
  ownership_state = "owned";
  subdomain = some "acme";
  claim_token_hash = none;
  claim_expires_at = none;
  archived = false;
}

first_claimed-acme : StoreTenants.by_id "u-new" first_claimed ≡ some acme_row
unfolding Context.subject_from_context Context.verify_ownership DomainDisplayName.parse
    DomainRole.parse DomainRole.grantable DomainSubdomain.parse DomainTenant.parse
    DomainTenant.claim_ownership RepositoryMemberships.add_owner
    RepositoryTenants.create_pending_tenant RepositoryTenants.delete_expired_pending_tenants
    RepositoryTenants.find_tenant_by_public_id_for_update RepositoryTenants.mark_tenant_owned
    StoreMemberships.insert StoreMemberships.list StoreMemberships.list_event_roles
    StoreTenants.insert StoreTenants.delete_expired StoreTenants.mark_owned StoreTenants.by_id
    StoreTenants.by_public_id System.serve TenantServiceOnboarding.start_tenant_registration
    TenantServiceOnboarding.claim_tenant_ownership Token.new_uuid Token.new_public_id
    Token.new_token Transaction.run_in_transaction
first_claimed-acme = refl

owners_remain_example : 0 < StoreMemberships.count_owners "u-new" first_claimed
owners_remain_example =
    owners_remain service first_claimed
      (then_ (then_ initially (served register_call [] empty)) (served first_claim [] registered))
      "u-new" first_claimed-acme refl

-- ann archives her tenant
abbrev archival : Call
archival = System.archive (member_of "p2" "ann") "p2"

abbrev archival_run : Result (Unit {0}) × World
archival_run = serve service archival world

archival_run-ok : archival_run ≡ (ok tt, archival_run.1)
unfolding Authorizer.require Context.subject_from_context Context.ensure Context.verify_ownership
    DomainRole.parse DomainRole.grants DomainSubdomain.parse DomainTenant.parse DomainTenant.archive
    RepositoryMemberships.find_tenant_role_for_share
    RepositoryTenants.find_tenant_by_public_id_for_update RepositoryTenants.update_tenant
    StoreMemberships.role_of StoreTenants.set_plan_archived StoreTenants.by_public_id System.serve
    TenantServiceAdministration.archive_tenant Transaction.run_in_transaction
archival_run-ok = refl

administration_is_permitted_example : Admitted (member_of "p2" "ann") "p2" db
administration_is_permitted_example =
    administration_is_permitted service archival (member_of "p2" "ann") (tenant "p2") world
      archival_run.1 archiving archival_run-ok

abbrev show : Event
show = record {
  id = "e1";
  public_id = "q1";
  tenant_id = "t2";
  tenant_public_id = "p2";
  name = "Show";
  status = DomainEvent.opened;
}

abbrev locked_show : Event
locked_show = record show { status = DomainEvent.locked }

transition_to_iff_example :
    (DomainEvent.transition_to show DomainEvent.locked ≡ ok locked_show)
    ↔ (Allowed DomainEvent.opened DomainEvent.locked × (locked_show ≡ locked_show))
transition_to_iff_example = transition_to_iff show locked_show DomainEvent.locked

role_round_trip_example :
    (DomainRole.parse "staff" ≡ ok DomainRole.staff
      → DomainRole.to_string DomainRole.staff ≡ "staff")
    × (Unit {0} → DomainRole.parse (DomainRole.to_string DomainRole.staff) ≡ ok DomainRole.staff)
role_round_trip_example = role_round_trip "staff" DomainRole.staff

event_status_round_trip_example :
    (DomainEvent.parse "open" ≡ ok DomainEvent.opened
      → DomainEvent.to_string DomainEvent.opened ≡ "open")
    × (Unit {0}
        → DomainEvent.parse (DomainEvent.to_string DomainEvent.opened) ≡ ok DomainEvent.opened)
event_status_round_trip_example = event_status_round_trip "open" DomainEvent.opened

ownership_state_round_trip_example :
    (DomainTenant.parse "owned" ≡ ok DomainTenant.owned
      → DomainTenant.to_string DomainTenant.owned ≡ "owned")
    × (Unit {0}
        → DomainTenant.parse (DomainTenant.to_string DomainTenant.owned) ≡ ok DomainTenant.owned)
ownership_state_round_trip_example = ownership_state_round_trip "owned" DomainTenant.owned

abbrev cy : DisplayName
cy = record { value = "Cy" }

parsed_cy : DomainDisplayName.parse "  Cy " ≡ ok cy
unfolding DomainDisplayName.parse
parsed_cy = refl

display_name_normal_example :
    ("Cy" ≡ Text.trim_space "  Cy ")
    × (0 < Text.rune_count "Cy")
    × (Text.rune_count "Cy" ≤ 64)
    × (DomainDisplayName.parse "Cy" ≡ ok cy)
display_name_normal_example = display_name_normal "  Cy " cy parsed_cy

abbrev offer : Invitation
offer = record {
  id = "i1";
  public_id = "r1";
  tenant_id = "t2";
  tenant_public_id = "p2";
  role = DomainRole.staff;
  display_name = cy;
  expires_at = 300;
  state = DomainInvitation.pending;
}

abbrev used : Invitation
used = record offer { state = DomainInvitation.accepted }

offer-accepted : DomainInvitation.accept offer 100 ≡ ok used
unfolding DomainInvitation.accept
offer-accepted = refl

closed_for_good_example :
    (offer.state ≡ DomainInvitation.pending)
    × (100 < 300)
    × ((used ≡ used) ⊎ (used ≡ record offer { state = DomainInvitation.revoked }))
    × (DomainInvitation.accept used 110 ≡ err (sentinel invitation_not_pending))
    × (DomainInvitation.revoke used 110 ≡ err (sentinel invitation_not_pending))
closed_for_good_example = closed_for_good offer used 100 110 (inl offer-accepted)

zeros-small : All (λ b. b < 256) zeros
zeros-small = (
  omega arith,
  (
    omega arith,
    (omega arith, (omega arith, (omega arith, (omega arith, (omega arith, (omega arith, tt)))))),
  ),
)

zero_id : Token.new_public_id platform ≡ ok "0000000000000000"
unfolding Token.new_public_id
zero_id = refl

public_id_no_subdomain_example :
    DomainSubdomain.parse "0000000000000000" ≡ err (sentinel invalid_subdomain)
public_id_no_subdomain_example =
    public_id_no_subdomain platform zeros "0000000000000000" refl refl zeros-small zero_id
