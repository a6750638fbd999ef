-- ===== src/Repository/Events.antt =====
-- internal/tenant/infra/db/event.go.
use tolo_tenant_management.Prelude.{
  ℕ, String, Bool, ◌&&◌, Option, none, some, List, ◌==◌, str_eq, if◌then◌else◌,
}
use tolo_tenant_management.Failure
use tolo_tenant_management.Failure.{
  Err, sentinel, opaque, as_pg, Result, ok, wrapped, traverse, event_not_found, tenant_archived,
  event_public_id_exists,
}
use tolo_tenant_management.Context.{Context, verify_ownership}
use tolo_tenant_management.Domain.Event
use tolo_tenant_management.Domain.Event.{Event}
use tolo_tenant_management.Store.{EventRow, Db}
use tolo_tenant_management.Store.Events as Sql
use tolo_tenant_management.Exec.{Exec, pure, fail, lift, statement, query, map_error, ◌>>=◌}
use tolo_tenant_management.Repository.{get, or_missing}
use tolo_tenant_management.Repository.Tenants.{find_tenant_by_id}

-- internal/tenant/repository/tenant.go
abbrev pub max_list_events : ℕ
max_list_events = 1000

unfoldable pub map_event_constraint_error : Err → Err
unfolding as_pg
map_event_constraint_error e = elim (as_pg e) [
  | none ↦ e
  | some p ↦
      if str_eq p.code "23505" && str_eq p.constraint "events_public_id_key"
      then sentinel event_public_id_exists
      else e
]

unfoldable pub event_of : Context → EventRow → Result Event
event_of ctx row = Failure.◌>>=◌ (wrapped (Event.parse row.status)) λ status.
    Failure.◌>>=◌ (verify_ownership ctx row.tenant_public_id) λ _. ok (record {
      id = row.id;
      public_id = row.public_id;
      tenant_id = row.tenant_id;
      tenant_public_id = row.tenant_public_id;
      name = row.name;
      status = status;
    })

abbrev pub row_of : Event → EventRow
row_of e = record {
  id = e.id;
  public_id = e.public_id;
  tenant_id = e.tenant_id;
  tenant_public_id = e.tenant_public_id;
  name = e.name;
  status = Event.to_string e.status;
}

-- why a write reached no row: the tenant is gone, archived, or nothing that is known
abbrev pub no_row : Context → String → String → Exec (Unit {0})
no_row ctx tenant_id cause = do
  tenant ← find_tenant_by_id ctx tenant_id
  if tenant.archived then fail (sentinel tenant_archived) else fail (opaque cause)

unfoldable pub create_event : Context → Event → Exec (Unit {0})
unfolding map_event_constraint_error
create_event ctx e = do
  rows ← map_error map_event_constraint_error (statement (Sql.insert (row_of e)))
  if rows == 0 then no_row ctx e.tenant_id "create event: no row inserted" else pure tt

unfoldable pub find_event : Context → (Db → Option EventRow) → Exec Event
unfolding event_of
find_event ctx select = do
  row ← map_error (or_missing event_not_found (λ e. e)) (get select)
  lift (event_of ctx row)

unfoldable pub find_event_by_public_id : Context → String → Exec Event
unfolding find_event
find_event_by_public_id ctx public_id = find_event ctx (Sql.by_public_id public_id)

unfoldable pub find_event_by_id : Context → String → Exec Event
unfolding find_event
find_event_by_id ctx id = find_event ctx (Sql.by_id id)

-- A limit of zero stands for every one that is not positive.
pub record ListEventsFilter : Type 0 where
  pub include_archived : Bool
  pub limit : ℕ

abbrev pub capped : ℕ → ℕ
capped limit = if limit == 0 then max_list_events else limit

unfoldable pub list_events_by_tenant_id : Context → String → ListEventsFilter → Exec (List Event)
unfolding event_of
list_events_by_tenant_id ctx tenant_id filter = do
  rows ← query (Sql.list tenant_id filter.include_archived (capped filter.limit))
  lift (traverse (event_of ctx) rows)

-- no row was written: the event is read again, to tell why
abbrev pub event_not_updated : Context → Event → Exec (Unit {0})
event_not_updated ctx e = do
  stored ← find_event_by_id ctx e.id
  no_row ctx stored.tenant_id "update event: no row updated"

unfoldable pub update_event : Context → Event → Exec (Unit {0})
update_event ctx e = do
  rows ← statement (Sql.update e.id e.name (Event.to_string e.status))
  if rows == 0 then event_not_updated ctx e else pure tt
