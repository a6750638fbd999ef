-- ===== src/System.antt =====
-- The program as its callers and its database see it: one call of a use case at a time, by any
-- caller, with any answers of the platform and any faults of the server.
pub mod Safety
use tolo_tenant_management.Prelude.{ℕ, String, Bool, Option, List, []}
use tolo_tenant_management.Context.{Context}
use tolo_tenant_management.Domain.Event.{EventStatus}
use tolo_tenant_management.Domain.Role.{Role}
use tolo_tenant_management.Store.{Db}
use tolo_tenant_management.Token.{Platform}
use tolo_tenant_management.Exec.{Exec, Fault, pure, ◌>>=◌}
use tolo_tenant_management.TenantService.Onboarding.{
  StartTenantRegistrationInput, ClaimTenantOwnershipInput, start_tenant_registration,
  claim_tenant_ownership, resolve_tenant_subdomain,
}
use tolo_tenant_management.TenantService.Administration.{change_tenant_contract, archive_tenant}
use tolo_tenant_management.TenantService.Events.{
  create_event_in_tenant, transition_event_status, get_event, list_events,
}
use tolo_tenant_management.RelationService.Members as Members
use tolo_tenant_management.RelationService.Invitations as Invitations
use tolo_tenant_management.RelationService.Invitations.{CreateTenantInvitationInput}

-- how long a claim and an invitation stay open
pub record Service : Type 0 where
  pub ownership_claim_ttl : ℕ
  pub invitation_ttl : ℕ

-- a call of each use case of TenantService and RelationAdminService
pub data Call : Type 0 where
  start_registration : Platform → StartTenantRegistrationInput → Call
  claim_ownership : Platform → Context → ClaimTenantOwnershipInput → Call
  resolve_subdomain : String → Call
  change_contract : Context → String → String → Call
  archive : Context → String → Call
  create_event : Platform → Context → String → String → Call
  transition_event : Context → String → EventStatus → Call
  get : Context → String → Call
  list : Context → String → Bool → Call
  add_member : Context → String → String → Role → String → Call
  change_role : Context → String → String → Role → Call
  grant_role : Context → String → String → Role → Call
  revoke_role : Context → String → String → String → Call
  list_members : Context → String → String → Call
  create_invitation : Platform → Context → CreateTenantInvitationInput → Call
  list_invitations : Platform → Context → String → Call
  revoke_invitation : Platform → Context → String → String → Call
  accept_invitation : Platform → Context → String → String → Call

-- a call, whose value goes to the caller
abbrev pub answer : {A : Type 0} → Exec A → Exec (Unit {0})
answer m = m >>= λ _. pure tt

unfoldable pub serve : Service → Call → Exec (Unit {0})
serve s (start_registration p input) =
    answer (start_tenant_registration p s.ownership_claim_ttl input)
serve s (claim_ownership p ctx input) = answer (claim_tenant_ownership p ctx input)
serve s (resolve_subdomain subdomain) = answer (resolve_tenant_subdomain subdomain)
serve s (change_contract ctx tenant plan) = answer (change_tenant_contract ctx tenant plan)
serve s (archive ctx tenant) = answer (archive_tenant ctx tenant)
serve s (create_event p ctx tenant name) = answer (create_event_in_tenant p ctx tenant name)
serve s (transition_event ctx event to) = answer (transition_event_status ctx event to)
serve s (get ctx event) = answer (get_event ctx event)
serve s (list ctx tenant archived) = answer (list_events ctx tenant archived)
serve s (add_member ctx tenant user role name) =
    answer (Members.add_tenant_member ctx tenant user role name)
serve s (change_role ctx tenant user role) =
    answer (Members.change_tenant_role ctx tenant user role)
serve s (grant_role ctx event user role) = answer (Members.grant_event_role ctx event user role)
serve s (revoke_role ctx user tenant event) = answer (Members.revoke_role ctx user tenant event)
serve s (list_members ctx tenant user) = answer (Members.list_memberships ctx tenant user)
serve s (create_invitation p ctx input) =
    answer (Invitations.create_tenant_invitation p s.invitation_ttl ctx input)
serve s (list_invitations p ctx tenant) = answer (Invitations.list_tenant_invitations p ctx tenant)
serve s (revoke_invitation p ctx tenant id) =
    answer (Invitations.revoke_tenant_invitation p ctx tenant id)
serve s (accept_invitation p ctx tenant token) =
    answer (Invitations.accept_tenant_invitation p ctx tenant token)

-- the tables that a call leaves
abbrev pub after : Service → Call → List (Option Fault) → Db → Db
after s c faults d = (serve s c (record { db = d; faults = faults })).1.db

-- A call is served, or the server's clock goes to another reading.
pub data Step (s : Service) : Db → Db → Type 0 where
  served : (c : Call) (faults : List (Option Fault)) (d : Db) → Step s d (after s c faults d)
  ticked : (now : ℕ) (d : Db) → Step s d (record d { now = now })

pub data Reachable (s : Service) (start : Db) : Db → Type 0 where
  initially : Reachable s start start
  then_ : {d e : Db} → Reachable s start d → Step s d e → Reachable s start e

-- the tables after the migrations
abbrev pub empty : Db
empty = record {
  tenants = [];
  events = [];
  memberships = [];
  event_roles = [];
  invitations = [];
  now = 0;
}
