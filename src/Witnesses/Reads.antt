-- ===== src/Witnesses/Reads.antt =====
-- The theorems on what is read, at the sample tables.
use tolo_tenant_management.Prelude.{◌≤◌, ◌≡◌, refl, false, none, some, List, [], ◌∷◌, All, length}
use tolo_tenant_management.Text
use tolo_tenant_management.Text.{trim_space}
use tolo_tenant_management.Failure.{ok}
use tolo_tenant_management.Context
use tolo_tenant_management.Context.{Context, tenant_public_id_from_context}
use tolo_tenant_management.Domain.DisplayName
use tolo_tenant_management.Domain.Subdomain
use tolo_tenant_management.Domain.Role
use tolo_tenant_management.Domain.Event
use tolo_tenant_management.Domain.Event.{Event}
use tolo_tenant_management.Domain.Tenant
use tolo_tenant_management.Domain.Membership.{Membership}
use tolo_tenant_management.Exec
use tolo_tenant_management.Exec.{World}
use tolo_tenant_management.Store.Events as StoreEvents
use tolo_tenant_management.Store.Memberships as StoreMemberships
use tolo_tenant_management.Store.Tenants as StoreTenants
use tolo_tenant_management.Repository.Tenants as RepositoryTenants
use tolo_tenant_management.Repository.Events as RepositoryEvents
use tolo_tenant_management.Repository.Memberships as RepositoryMemberships
use tolo_tenant_management.RelationService.Gates
use tolo_tenant_management.RelationService.Members
use tolo_tenant_management.TenantService.Administration
use tolo_tenant_management.TenantService.Events
use tolo_tenant_management.Sample.{world, member_of}
use tolo_tenant_management.Guarantees.Isolation.{Shown, memberships_stay_within_tenant}
use tolo_tenant_management.Guarantees.Listing.{Qualifies, listed_events_are_bounded}
use tolo_tenant_management.Transport.Http
use tolo_tenant_management.Transport.Http.{MembershipBody, memberships, reply}
use tolo_tenant_management.Transport.Http.Boundary.{
  named, one_user, IsAsked, request_asks_one_user, request_shows_named_user,
}

-- a request that holds no token
abbrev anonymous : Context
anonymous = record { claims = none; bound = none; transaction = false }

abbrev bob : Membership
bob = record {
  user_id = "bob";
  tenant_id = "t2";
  tenant_public_id = "p2";
  tenant_role = Role.staff;
  display_name = record { value = "Bob" };
  joined_at = 20;
  event_roles = record { event_id = "e1"; event_public_id = "q1"; role = Role.staff } ∷ [];
}

abbrev festival : Event
festival = record {
  id = "e1";
  public_id = "q1";
  tenant_id = "t2";
  tenant_public_id = "p2";
  name = "Festival";
  status = Event.opened;
}

abbrev bob_body : List MembershipBody
bob_body =
    record {
      user_id = "bob";
      tenant_id = "p2";
      tenant_role = "staff";
      event_roles = record { event_id = "q1"; role = "staff" } ∷ [];
    }
    ∷ []

found_bob : Members.list_memberships (member_of "p2" "ann") "" "bob" world ≡ (ok (bob ∷ []), world)
unfolding Members.list_memberships Members.list_by_user Gates.resolve_tenant Context.ensure
    Context.verify_ownership Context.tenant_public_id_from_context Context.nonblank Text.trim_space
    RepositoryTenants.find_tenant_by_public_id RepositoryTenants.find_tenant
    RepositoryTenants.tenant_of RepositoryMemberships.find_membership
    RepositoryMemberships.list_memberships RepositoryMemberships.membership_of
    StoreTenants.by_public_id StoreMemberships.list StoreMemberships.list_event_roles Role.parse
    Role.to_string Tenant.parse Subdomain.parse DisplayName.parse Exec.handle Exec.statement
    Exec.lift Exec.pure Exec.fail
found_bob = refl

memberships_stay_within_tenant_example : All (Shown (member_of "p2" "ann") "" "bob") (bob ∷ [])
memberships_stay_within_tenant_example =
    memberships_stay_within_tenant (member_of "p2" "ann") "" "bob" world (bob ∷ []) world found_bob

found_festival :
    Events.list_events (member_of "p2" "ann") "p2" false world ≡ (ok (festival ∷ []), world)
unfolding Events.list_events Administration.resolve_tenant Context.ensure Context.verify_ownership
    Context.tenant_public_id_from_context Context.nonblank Text.trim_space
    RepositoryTenants.find_tenant_by_public_id RepositoryTenants.find_tenant
    RepositoryTenants.tenant_of RepositoryEvents.list_events_by_tenant_id RepositoryEvents.event_of
    StoreTenants.by_public_id StoreEvents.list Event.parse Event.to_string Tenant.parse
    Subdomain.parse Exec.handle Exec.statement Exec.lift Exec.pure Exec.fail
found_festival = refl

listed_events_are_bounded_example :
    (tenant_public_id_from_context (member_of "p2" "ann") ≡ some "p2")
    × All (Qualifies "p2" false) (festival ∷ [])
    × (length (festival ∷ []) ≤ 1000)
listed_events_are_bounded_example =
    listed_events_are_bounded (member_of "p2" "ann") "p2" false world (festival ∷ []) world
      found_festival

request_asks_one_user_example : Http.list_memberships anonymous " p2 " "bob" world ≡ (
    let (r, w') = one_user (named anonymous " p2 ") (trim_space " p2 ") (trim_space "bob") world in
    (reply r, w'))
unfolding Text.trim_space
request_asks_one_user_example = request_asks_one_user anonymous " p2 " "bob" world refl refl refl

shown_bob :
    (Http.list_memberships anonymous " p2 " "bob" world).0.written
    ≡ some (200, memberships bob_body)
unfolding Http.list_memberships Members.list_memberships Members.list_by_user Gates.resolve_tenant
    Context.ensure Context.verify_ownership Context.tenant_public_id_from_context
    Context.with_tenant_public_id Context.nonblank Text.trim_space
    RepositoryTenants.find_tenant_by_public_id RepositoryTenants.find_tenant
    RepositoryTenants.tenant_of RepositoryMemberships.find_membership
    RepositoryMemberships.list_memberships RepositoryMemberships.membership_of
    StoreTenants.by_public_id StoreMemberships.list StoreMemberships.list_event_roles Role.parse
    Role.to_string Tenant.parse Subdomain.parse DisplayName.parse Exec.handle Exec.statement
    Exec.lift Exec.pure Exec.fail
shown_bob = refl

request_shows_named_user_example : All (IsAsked " p2 " "bob") bob_body
request_shows_named_user_example =
    request_shows_named_user anonymous " p2 " "bob" world bob_body refl shown_bob
