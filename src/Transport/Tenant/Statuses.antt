-- ===== src/Transport/Tenant/Statuses.antt =====
-- Event statuses on the wire: eventStatusProto and eventStatusDomain of
-- internal/tenant/infra/connect/service.go, and the statuses that no transition is made to.
use tolo_tenant_management.Prelude.{ℕ, ◌≡◌, refl, String, false, []}
use tolo_tenant_management.Text.{is_empty}
use tolo_tenant_management.Failure
use tolo_tenant_management.Failure.{sentinel, event_status_required}
use tolo_tenant_management.Context.{Context}
use tolo_tenant_management.Exec
use tolo_tenant_management.Exec.{World}
use tolo_tenant_management.Domain.Event
use tolo_tenant_management.Domain.Event.Names
use tolo_tenant_management.TenantService.Events
use tolo_tenant_management.Transport.Errors
use tolo_tenant_management.Transport.Errors.{Response, refused}
use tolo_tenant_management.Transport.Tenant
use tolo_tenant_management.Transport.Tenant.{
  EventStatus, EventMessage, event_status_proto, event_status_domain,
}

-- a number that a status is declared for
abbrev pub IsDeclared : EventStatus → Type 0
IsDeclared (EventStatus.other n) = ⊥
IsDeclared _ = Unit

domain_round_trip :
    (s : Event.EventStatus) → Names.IsDeclared s → event_status_domain (event_status_proto s) ≡ s
unfolding event_status_domain event_status_proto
domain_round_trip Event.unspecified h = refl
domain_round_trip Event.draft h = refl
domain_round_trip Event.opened h = refl
domain_round_trip Event.locked h = refl
domain_round_trip Event.closed h = refl
domain_round_trip Event.archived h = refl
domain_round_trip (Event.other n) h = elim h [ ]

wire_round_trip : (s : EventStatus) → IsDeclared s → event_status_proto (event_status_domain s) ≡ s
unfolding event_status_domain event_status_proto
wire_round_trip EventStatus.unspecified h = refl
wire_round_trip EventStatus.draft h = refl
wire_round_trip EventStatus.opened h = refl
wire_round_trip EventStatus.locked h = refl
wire_round_trip EventStatus.closed h = refl
wire_round_trip EventStatus.archived h = refl
wire_round_trip (EventStatus.other n) h = elim h [ ]

-- A declared status of the domain is read back from the wire, and a declared status of the wire from
-- the domain; every other value is the unspecified status on the other side.
pub wire_status_round_trip :
    (s : Event.EventStatus) (v : EventStatus)
    → (Names.IsDeclared s → event_status_domain (event_status_proto s) ≡ s)
      × (IsDeclared v → event_status_proto (event_status_domain v) ≡ v)
      × ((n : ℕ)
          → (event_status_proto (Event.other n) ≡ EventStatus.unspecified)
            × (event_status_domain (EventStatus.other n) ≡ Event.unspecified))
unfolding event_status_domain event_status_proto
wire_status_round_trip s v = (domain_round_trip s, wire_round_trip v, λ n. (refl, refl))

-- no status: the one that stands for none, or a number that nothing is declared for
abbrev pub IsNone : EventStatus → Type 0
IsNone EventStatus.unspecified = Unit
IsNone (EventStatus.other n) = Unit
IsNone _ = ⊥

-- A transition to the unspecified status, or to a number that no status is declared for, is refused
-- as an invalid argument, and no statement is made: for any caller and an event that is named.
pub undeclared_status_is_refused :
    (ctx : Context) (event_id : String) (to : EventStatus) (w : World)
    → is_empty event_id ≡ false
    → IsNone to
    → Tenant.transition_event_status ctx event_id to w ≡ (
      refused (
        record {
          code = Errors.invalid_argument;
          message = "to is required";
          cause = sentinel event_status_required;
        },
        [],
      ),
      w,
    )
unfolding event_status_domain Tenant.transition_event_status Events.transition_event_status
    Errors.for_error Exec.handle Exec.fail Failure.is
undeclared_status_is_refused ctx event_id EventStatus.unspecified w named h = rw named refl
undeclared_status_is_refused ctx event_id (EventStatus.other n) w named h = rw named refl
undeclared_status_is_refused ctx event_id EventStatus.draft w named h = elim h [ ]
undeclared_status_is_refused ctx event_id EventStatus.opened w named h = elim h [ ]
undeclared_status_is_refused ctx event_id EventStatus.locked w named h = elim h [ ]
undeclared_status_is_refused ctx event_id EventStatus.closed w named h = elim h [ ]
undeclared_status_is_refused ctx event_id EventStatus.archived w named h = elim h [ ]
