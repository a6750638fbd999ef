-- ===== src/TenantService/Events.antt =====
-- CreateEvent, TransitionEventStatus, GetEvent and ListEvents of
-- internal/tenant/application/tenant.go.
use tolo_tenant_management.Prelude.{String, Bool, Option, none, some, List, if◌then◌else◌}
use tolo_tenant_management.Text.{is_empty}
use tolo_tenant_management.Failure.{
  sentinel, event_name_required, event_id_required, event_status_required, creator_not_member,
  tenant_archived,
}
use tolo_tenant_management.Context.{Context, ensure}
use tolo_tenant_management.Domain.Role.{Role}
use tolo_tenant_management.Domain.Tenant.{Tenant}
use tolo_tenant_management.Domain.Event
use tolo_tenant_management.Domain.Event.{Event, EventStatus, same, transition_to}
use tolo_tenant_management.Token.{Platform, new_uuid, new_public_id}
use tolo_tenant_management.Exec.{Exec, pure, fail, lift, ◌>>=◌, ◌>>◌}
use tolo_tenant_management.Transaction.{run_in_transaction}
use tolo_tenant_management.Authorizer.{current_role}
use tolo_tenant_management.Repository.Events.{
  max_list_events, create_event, find_event_by_public_id, update_event, list_events_by_tenant_id,
}
use tolo_tenant_management.Repository.Memberships.{grant_event_role}
use tolo_tenant_management.TenantService.Onboarding.{required_subject}
use tolo_tenant_management.TenantService.Administration.{resolve_tenant}

unfoldable pub resolve_event : Context → String → Exec Event
resolve_event ctx event_public_id = do
  event ← find_event_by_public_id ctx event_public_id
  lift (ensure ctx event.tenant_public_id)
  pure event

abbrev pub draft_of : Tenant → String → String → String → Event
draft_of tenant id public_id name = record {
  id = id;
  public_id = public_id;
  tenant_id = tenant.id;
  tenant_public_id = tenant.public_id;
  name = name;
  status = Event.draft;
}

-- the event and its creator's role on it
unfoldable pub create_as : Event → String → Context → Option Role → Exec Event
create_as event subject ctx none = fail (sentinel creator_not_member)
create_as event subject ctx (some role) = do
  create_event ctx event
  _ ← grant_event_role ctx event.id subject role
  pure event

-- the work of the transaction
unfoldable pub create_for : Event → String → Context → Exec Event
unfolding create_as
create_for event subject ctx = do
  role ← current_role ctx event.tenant_id
  create_as event subject ctx role

unfoldable pub create_in : Platform → Context → String → Tenant → Exec Event
unfolding create_for
create_in p ctx name tenant = if tenant.archived then fail (sentinel tenant_archived) else do
  subject ← lift (required_subject ctx)
  event_id ← lift (new_uuid p)
  public_id ← lift (new_public_id p)
  run_in_transaction ctx (create_for (draft_of tenant event_id public_id name) subject)

unfoldable pub create_event_in_tenant : Platform → Context → String → String → Exec Event
unfolding create_in
create_event_in_tenant p ctx tenant_public_id name =
    if is_empty name
    then fail (sentinel event_name_required)
    else do tenant ← resolve_tenant ctx tenant_public_id; create_in p ctx name tenant

unfoldable pub transition_event_status : Context → String → EventStatus → Exec Event
unfolding resolve_event
transition_event_status ctx event_public_id to =
    if is_empty event_public_id
    then fail (sentinel event_id_required)
    else if same to Event.unspecified
    then fail (sentinel event_status_required)
    else do
      event ← resolve_event ctx event_public_id
      updated ← lift (transition_to event to)
      update_event ctx updated
      pure updated

unfoldable pub get_event : Context → String → Exec Event
unfolding resolve_event
get_event ctx event_public_id =
    if is_empty event_public_id
    then fail (sentinel event_id_required)
    else resolve_event ctx event_public_id

unfoldable pub list_events : Context → String → Bool → Exec (List Event)
list_events ctx tenant_public_id include_archived = do
  tenant ← resolve_tenant ctx tenant_public_id
  list_events_by_tenant_id ctx tenant.id
      (record { include_archived = include_archived; limit = max_list_events })
