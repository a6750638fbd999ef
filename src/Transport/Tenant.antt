-- ===== src/Transport/Tenant.antt =====
-- internal/tenant/infra/connect/service.go. A request is its getters, and the response of a use case
-- is built of public IDs only. Deadlines and times are the clock's ticks.
pub mod Statuses
use tolo_tenant_management.Prelude.{ℕ, String, Bool, List, [], ◌∷◌, map}
use tolo_tenant_management.Failure.{
  already_archived, claim_rejected, claim_token_required, context_mismatch, context_missing,
  contract_plan_required, creator_not_member, display_name_required, display_name_too_long,
  event_id_required, event_name_required, event_not_found, event_public_id_exists,
  event_status_required, invalid_subdomain, invalid_transition, permission_denied, subdomain_exists,
  subdomain_required, subject_missing, tenant_archived, tenant_id_required, tenant_name_required,
  tenant_not_found, tenant_pending_owner, tenant_public_id_exists, transaction_aborted,
}
use tolo_tenant_management.Context.{Context}
use tolo_tenant_management.Domain.Tenant
use tolo_tenant_management.Domain.Event
use tolo_tenant_management.Token.{Platform}
use tolo_tenant_management.Exec.{World, Exec}
use tolo_tenant_management.TenantService.Onboarding
use tolo_tenant_management.TenantService.Administration
use tolo_tenant_management.TenantService.Events
use tolo_tenant_management.Transport.Errors
use tolo_tenant_management.Transport.Errors.{
  ClientError, told, Response, respond, aborted, already_exists, failed_precondition,
  invalid_argument, not_found, unauthenticated,
}

abbrev pub client_errors : List ClientError
client_errors =
    told tenant_name_required invalid_argument "name is required"
    ∷ told contract_plan_required invalid_argument "contract_plan is required"
    ∷ told tenant_id_required invalid_argument "tenant_id is required"
    ∷ told claim_token_required invalid_argument "ownership_claim_token is required"
    ∷ told event_name_required invalid_argument "name is required"
    ∷ told event_id_required invalid_argument "event_id is required"
    ∷ told event_status_required invalid_argument "to is required"
    ∷ told subdomain_required invalid_argument "subdomain is required"
    ∷ told invalid_subdomain invalid_argument "subdomain is invalid"
    ∷ told display_name_required invalid_argument "display_name is required"
    ∷ told display_name_too_long invalid_argument "display_name is too long"
    ∷ told subdomain_exists already_exists "subdomain already exists"
    ∷ told tenant_public_id_exists already_exists
        "generated tenant ID already exists; retry the request"
    ∷ told event_public_id_exists already_exists
        "generated event ID already exists; retry the request"
    ∷ told tenant_not_found not_found "tenant not found"
    ∷ told event_not_found not_found "event not found"
    ∷ told tenant_pending_owner failed_precondition "tenant is pending an owner"
    ∷ told tenant_archived failed_precondition "tenant is archived"
    ∷ told already_archived failed_precondition "tenant is already archived"
    ∷ told invalid_transition failed_precondition "event status transition is not allowed"
    ∷ told creator_not_member failed_precondition "caller does not belong to the tenant"
    ∷ told permission_denied Errors.permission_denied "permission denied"
    ∷ told context_mismatch Errors.permission_denied "tenant does not match the token"
    ∷ told claim_rejected Errors.permission_denied "ownership claim rejected"
    ∷ told subject_missing unauthenticated "subject is missing from the token"
    ∷ told context_missing unauthenticated "tenant ID is missing from the token"
    ∷ told transaction_aborted aborted "transaction aborted; retry the request"
    ∷ []

-- an open enum: `other n` is any number that no value is declared for
pub data EventStatus : Type 0 where
  unspecified draft opened locked closed archived : EventStatus
  other : ℕ → EventStatus

pub data TenantOwnershipState : Type 0 where
  unspecified pending_owner owned : TenantOwnershipState
  other : ℕ → TenantOwnershipState

unfoldable pub event_status_proto : Event.EventStatus → EventStatus
event_status_proto Event.unspecified = EventStatus.unspecified
event_status_proto Event.draft = draft
event_status_proto Event.opened = opened
event_status_proto Event.locked = locked
event_status_proto Event.closed = closed
event_status_proto Event.archived = archived
event_status_proto (Event.other n) = EventStatus.unspecified

unfoldable pub event_status_domain : EventStatus → Event.EventStatus
event_status_domain EventStatus.unspecified = Event.unspecified
event_status_domain draft = Event.draft
event_status_domain opened = Event.opened
event_status_domain locked = Event.locked
event_status_domain closed = Event.closed
event_status_domain archived = Event.archived
event_status_domain (EventStatus.other n) = Event.unspecified

unfoldable pub ownership_state_proto : Tenant.OwnershipState → TenantOwnershipState
ownership_state_proto Tenant.unspecified = TenantOwnershipState.unspecified
ownership_state_proto Tenant.pending_owner = pending_owner
ownership_state_proto Tenant.owned = owned
ownership_state_proto (Tenant.other n) = TenantOwnershipState.unspecified

pub record TenantMessage : Type 0 where
  pub tenant_id : String
  pub name : String
  pub contract_plan : String
  pub archived : Bool
  pub ownership_state : TenantOwnershipState
  pub subdomain : String

pub record EventMessage : Type 0 where
  pub event_id : String
  pub tenant_id : String
  pub name : String
  pub status : EventStatus

unfoldable pub tenant_proto : Tenant.Tenant → TenantMessage
unfolding ownership_state_proto
tenant_proto t = record {
  tenant_id = t.public_id;
  name = t.name;
  contract_plan = t.contract_plan;
  archived = t.archived;
  ownership_state = ownership_state_proto t.ownership_state;
  subdomain = t.subdomain.value;
}

unfoldable pub event_proto : Event.Event → EventMessage
unfolding event_status_proto
event_proto e = record {
  event_id = e.public_id;
  tenant_id = e.tenant_public_id;
  name = e.name;
  status = event_status_proto e.status;
}

pub record RegistrationMessage : Type 0 where
  pub tenant : TenantMessage
  pub ownership_claim_token : String
  pub expires_at : ℕ

abbrev pub registration_proto : Onboarding.TenantRegistration → RegistrationMessage
registration_proto r = record {
  tenant = tenant_proto r.tenant;
  ownership_claim_token = r.claim_token;
  expires_at = r.expires_at;
}

pub record ClaimTenantOwnershipRequest : Type 0 where
  pub tenant_id : String
  pub ownership_claim_token : String
  pub subdomain : String
  pub display_name : String

-- `ttl` is the service's `ownershipClaimTTL`.
unfoldable pub start_tenant_registration :
    Platform → ℕ → String → String → World → Response RegistrationMessage × World
start_tenant_registration p ttl name contract_plan = respond client_errors registration_proto (
    Onboarding.start_tenant_registration p ttl
      (record { name = name; contract_plan = contract_plan }))

unfoldable pub claim_tenant_ownership :
    Platform → Context → ClaimTenantOwnershipRequest → World → Response TenantMessage × World
claim_tenant_ownership p ctx req = respond client_errors tenant_proto (
    Onboarding.claim_tenant_ownership p ctx (record {
      tenant_public_id = req.tenant_id;
      claim_token = req.ownership_claim_token;
      subdomain = req.subdomain;
      display_name = req.display_name;
    }))

unfoldable pub resolve_tenant_subdomain : String → World → Response String × World
resolve_tenant_subdomain subdomain =
    respond client_errors (λ tenant_id. tenant_id) (Onboarding.resolve_tenant_subdomain subdomain)

unfoldable pub change_tenant_contract :
    Context → String → String → World → Response TenantMessage × World
change_tenant_contract ctx tenant_id contract_plan =
    respond client_errors tenant_proto
      (Administration.change_tenant_contract ctx tenant_id contract_plan)

unfoldable pub archive_tenant : Context → String → World → Response TenantMessage × World
archive_tenant ctx tenant_id =
    respond client_errors tenant_proto (Administration.archive_tenant ctx tenant_id)

unfoldable pub create_event :
    Platform → Context → String → String → World → Response EventMessage × World
create_event p ctx tenant_id name =
    respond client_errors event_proto (Events.create_event_in_tenant p ctx tenant_id name)

unfoldable pub transition_event_status :
    Context → String → EventStatus → World → Response EventMessage × World
unfolding event_status_domain
transition_event_status ctx event_id to =
    respond client_errors event_proto
      (Events.transition_event_status ctx event_id (event_status_domain to))

unfoldable pub get_event : Context → String → World → Response EventMessage × World
get_event ctx event_id = respond client_errors event_proto (Events.get_event ctx event_id)

unfoldable pub list_events : Context → String → Bool → World → Response (List EventMessage) × World
unfolding event_proto
list_events ctx tenant_id include_archived =
    respond client_errors (map event_proto) (Events.list_events ctx tenant_id include_archived)
