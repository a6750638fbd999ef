-- ===== src/Guarantees/Administration.antt =====
-- The administrative writes of internal/relation/application/relation.go and
-- internal/tenant/application/tenant.go, of a tenant or on one of its events.
use tolo_tenant_management.Prelude.{◌≡◌, sym, ◌∙◌, String, false, some, inl, inr, Bool-cases}
use tolo_tenant_management.Failure.{ok}
use tolo_tenant_management.Text.{is_empty}
use tolo_tenant_management.Context.{Context, tenant_public_id_from_context}
use tolo_tenant_management.Domain.Role.{Role}
use tolo_tenant_management.Domain.Tenant.{Tenant}
use tolo_tenant_management.Domain.Event as DomainEvent
use tolo_tenant_management.Domain.Event.{Event, EventStatus, same}
use tolo_tenant_management.Store.{TenantRow, EventRow, Db}
use tolo_tenant_management.Store.Tenants.{by_public_id}
use tolo_tenant_management.Store.Events as Sql
use tolo_tenant_management.Token.{Platform}
use tolo_tenant_management.Exec.{World}
use tolo_tenant_management.Exec.Triple.{Triple-lift}
use tolo_tenant_management.Repository.Events.{event_of, find_event_by_public_id}
use tolo_tenant_management.RelationService.Gates.{writable_event}
use tolo_tenant_management.RelationService.Members as Members
use tolo_tenant_management.TenantService.Administration as Administration
use tolo_tenant_management.System
use tolo_tenant_management.System.{Service, Call, serve}
use tolo_tenant_management.Guarantees.{
  Proves, Reads, proved, Proves-first, Proves-map, Proves-next, Proves-unless, Proves-fail,
  Reads-bind, Reads-lift, Reads-pure, Reads-unless,
}
use tolo_tenant_management.Guarantees.Lookup.{Reads-get, tenant_of-eq_ok}
use tolo_tenant_management.Guarantees.Listing.{event_of-eq_ok}
use tolo_tenant_management.Guarantees.Permission.{MayWrite, Proves-with_current_permission}
use tolo_tenant_management.Guarantees.Admission.{
  Admitted, Usable, owned_name, Reads-writable_tenant, Proves-change_role, Proves-create_invitation,
  Proves-administer_tenant, Proves-change_contract, Proves-revoke_role,
}

-- what a write on an event was let through on
pub record AdmittedOn (ctx : Context) (public_id : String) (d : Db) : Type 0 where
  pub row : EventRow
  pub found : Sql.by_public_id public_id d ≡ some row
  pub status : EventStatus
  pub status_name : DomainEvent.to_string status ≡ row.status
  pub unarchived_event : same status DomainEvent.archived ≡ false
  pub tenant_row : TenantRow
  pub found_tenant : by_public_id row.tenant_public_id d ≡ some tenant_row
  pub authenticated : tenant_public_id_from_context ctx ≡ some row.tenant_public_id
  pub owned : tenant_row.ownership_state ≡ "owned"
  pub unarchived : tenant_row.archived ≡ false
  pub permitted : MayWrite ctx row.tenant_id d

module _ (d : Db) (ctx : Context) (public_id : String) where
  -- the row of an event, and the event that was made of it
  abbrev Read : Event → Type 0
  Read e = (row : EventRow) × (Sql.by_public_id public_id d ≡ some row) × (event_of ctx row ≡ ok e)

  -- what the gates have checked of an event
  abbrev Writable : Event → Type 0
  Writable e =
      Read e
      × (same e.status DomainEvent.archived ≡ false)
      × ((t : Tenant) × Usable ctx e.tenant_public_id d t)

module _ {d : Db} (ctx : Context) (public_id : String) where
  Reads-find_event : Reads d (find_event_by_public_id ctx public_id) (Read d ctx public_id)
  unfolding find_event_by_public_id
  Reads-find_event =
      Reads-bind _ _ (Reads-get (Sql.by_public_id public_id) _)
        (λ row e. Triple-lift _ (λ o k x h. (h, (row, e, k))) (λ x e y h. tt))

  Reads-writable_event : Reads d (writable_event ctx public_id) (Writable d ctx public_id)
  unfolding writable_event
  Reads-writable_event = Reads-unless (is_empty public_id) _ _ (λ _.
      Reads-bind _ _ Reads-find_event (λ e read. Reads-bind _ _ (Reads-lift _) (λ _ _.
        Reads-unless (same e.status DomainEvent.archived) _ _ (λ live.
          Reads-bind _ _ (Reads-writable_tenant ctx e.tenant_public_id)
            (λ t usable. Reads-pure e (read, live, (t, usable)))))))

  admitted_on :
      (e : Event)
      → Writable d ctx public_id e
      → MayWrite ctx e.tenant_id d
      → AdmittedOn ctx public_id d
  admitted_on e ((row, found, made), live, (t, ((tenant_row, there, built), named, o, a))) k =
      let (_, tenant_name, status_name, id) = event_of-eq_ok row e ctx made in
      let (_, same_mark, state) = tenant_of-eq_ok tenant_row t ctx built in
      record {
        row = row;
        found = found;
        status = e.status;
        status_name = status_name;
        unarchived_event = live;
        tenant_row = tenant_row;
        found_tenant = rw tenant_name at there;
        authenticated = rw tenant_name at named;
        owned = sym state ∙ owned_name t.ownership_state o;
        unarchived = sym same_mark ∙ a;
        permitted = rw id at k;
      }

  Proves-grant :
      (user_id : String) (role : Role)
      → Proves d (Members.grant_event_role ctx public_id user_id role) (AdmittedOn ctx public_id d)
  unfolding Members.grant_event_role
  Proves-grant user_id role = Proves-unless (is_empty user_id) _ _ (λ _.
      Proves-next _ _ (Reads-lift _) (λ _ _.
        Proves-next _ _ Reads-writable_event (λ e h.
          Proves-map _ (admitted_on e h) (Proves-with_current_permission ctx e.tenant_id _))))

  Proves-revoke_in_event :
      (user_id : String)
      → Proves d (Members.revoke_in_event ctx public_id user_id) (AdmittedOn ctx public_id d)
  unfolding Members.revoke_in_event
  Proves-revoke_in_event user_id =
      Proves-next _ _ Reads-writable_event
        (λ e h. Proves-map _ (admitted_on e h) (Proves-with_current_permission ctx e.tenant_id _))

  Proves-revoke_on_event :
      (user_id : String)
      → Proves d (Members.revoke_role ctx user_id "" public_id) (AdmittedOn ctx public_id d)
  unfolding Members.revoke_role
  Proves-revoke_on_event user_id = Proves-unless (is_empty user_id) _ _ (λ _.
      elim (Bool-cases (is_empty public_id)) [
        | inl e ↦ rw e (Proves-fail _)
        | inr e ↦ rw e (Proves-revoke_in_event user_id)
      ])

-- what an administrative write names
pub data Target : Type 0 where
  tenant : String → Target
  event : String → Target

-- The administrative writes: ChangeTenantContract, ArchiveTenant, ChangeTenantRole,
-- CreateTenantInvitation, RevokeRole in a tenant or on an event, and GrantEventRole.
pub data Administers : Call → Context → Target → Type 0 where
  contract :
      {ctx : Context} {id : String} (plan : String)
      → Administers (System.change_contract ctx id plan) ctx (tenant id)
  archiving : {ctx : Context} {id : String} → Administers (System.archive ctx id) ctx (tenant id)
  role_change :
      {ctx : Context} {id : String} (user : String) (role : Role)
      → Administers (System.change_role ctx id user role) ctx (tenant id)
  removal :
      {ctx : Context} {id : String} (user on : String)
      → is_empty id ≡ false
      → Administers (System.revoke_role ctx user id on) ctx (tenant id)
  invitation :
      {ctx : Context} {id : String} (p : Platform) (role : Role) (name : String)
      → Administers
          (System.create_invitation p ctx
            (record { tenant_public_id = id; role = role; display_name = name }))
          ctx
          (tenant id)
  grant :
      {ctx : Context} {id : String} (user : String) (role : Role)
      → Administers (System.grant_role ctx id user role) ctx (event id)
  event_removal :
      {ctx : Context} {id : String} (user : String)
      → Administers (System.revoke_role ctx user "" id) ctx (event id)

-- what a write was let through on, by what it names
abbrev pub IsLetThrough : Context → Target → Db → Type 0
IsLetThrough ctx (tenant id) d = Admitted ctx id d
IsLetThrough ctx (event id) d = AdmittedOn ctx id d

Proves-serve :
    {d : Db} (s : Service) (c : Call) (ctx : Context) (t : Target)
    → Administers c ctx t
    → Proves d (serve s c) (IsLetThrough ctx t d)
unfolding serve Administration.archive_tenant
Proves-serve s c ctx (tenant id) (contract plan) =
    Proves-first _ _ (Proves-change_contract ctx id plan)
Proves-serve s c ctx (tenant id) archiving = Proves-first _ _ (Proves-administer_tenant ctx id _)
Proves-serve s c ctx (tenant id) (role_change user role) =
    Proves-first _ _ (Proves-change_role ctx id user role)
Proves-serve s c ctx (tenant id) (removal user on e) =
    Proves-first _ _ (Proves-revoke_role ctx id user on e)
Proves-serve s c ctx (tenant id) (invitation p role name) =
    Proves-first _ _ (Proves-create_invitation ctx id p s.invitation_ttl role name)
Proves-serve s c ctx (event id) (grant user role) = Proves-first _ _ (Proves-grant ctx id user role)
Proves-serve s c ctx (event id) (event_removal user) =
    Proves-first _ _ (Proves-revoke_on_event ctx id user)

-- Each of the six administrative writes that succeeds was made by a caller who is authenticated for
-- the tenant that it names, or for the tenant of the event that it names, and whose role in that
-- tenant, as the tables say before the write, has the scope `tenant.write`; the tenant is owned and not
-- archived, and neither is the event.
pub administration_is_permitted :
    (s : Service) (c : Call) (ctx : Context) (t : Target) (w w' : World)
    → Administers c ctx t
    → serve s c w ≡ (ok tt, w')
    → IsLetThrough ctx t w.db
administration_is_permitted s c ctx t w w' a h = proved (serve s c) (Proves-serve s c ctx t a) h
