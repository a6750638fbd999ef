-- ===== src/System/Safety.antt =====
-- What no call and no fault can break.
use tolo_tenant_management.Prelude.{◌<◌, ◌≡◌, sym, String, true, some, str_eq, eq_iff, All-find}
use tolo_tenant_management.Exec.{Exec}
use tolo_tenant_management.Exec.Triple.{Keeps, Keeps-pure, Keeps-fail, Keeps-handle, kept_db}
use tolo_tenant_management.Store.{Db, TenantRow}
use tolo_tenant_management.Store.Tenants.{by_id}
use tolo_tenant_management.Store.Memberships.{count_owners}
use tolo_tenant_management.Invariant.{IsSound, HasOwner}
use tolo_tenant_management.Invariant.TenantCalls.{
  Keeps-archive_tenant, Keeps-change_tenant_contract, Keeps-claim_tenant_ownership,
  Keeps-create_event_in_tenant, Keeps-get_event, Keeps-list_events_of,
  Keeps-resolve_tenant_subdomain, Keeps-start_tenant_registration, Keeps-transition_event_status,
}
use tolo_tenant_management.Invariant.RelationCalls.{
  Keeps-accept_tenant_invitation, Keeps-add_member, Keeps-change_role,
  Keeps-create_tenant_invitation, Keeps-grant_role, Keeps-list_memberships_of,
  Keeps-list_tenant_invitations, Keeps-revoke_role, Keeps-revoke_tenant_invitation,
}
use tolo_tenant_management.System
use tolo_tenant_management.System.{
  Service, Call, serve, answer, Step, served, ticked, Reachable, initially, then_, empty,
}

answered : {A : Type 0} (m : Exec A) → Keeps IsSound m → Keeps IsSound (answer m)
answered m k = Keeps-handle m _ _ k (λ a. Keeps-pure tt) (λ e. Keeps-fail e)

serve-IsSound : (s : Service) (c : Call) → Keeps IsSound (serve s c)
unfolding serve
serve-IsSound s (System.start_registration p input) =
    answered _ (Keeps-start_tenant_registration p s.ownership_claim_ttl input)
serve-IsSound s (System.claim_ownership p ctx input) =
    answered _ (Keeps-claim_tenant_ownership p ctx input)
serve-IsSound s (System.resolve_subdomain subdomain) =
    answered _ (Keeps-resolve_tenant_subdomain subdomain)
serve-IsSound s (System.change_contract ctx tenant plan) =
    answered _ (Keeps-change_tenant_contract ctx tenant plan)
serve-IsSound s (System.archive ctx tenant) = answered _ (Keeps-archive_tenant ctx tenant)
serve-IsSound s (System.create_event p ctx tenant name) =
    answered _ (Keeps-create_event_in_tenant p ctx tenant name)
serve-IsSound s (System.transition_event ctx event to) =
    answered _ (Keeps-transition_event_status ctx event to)
serve-IsSound s (System.get ctx event) = answered _ (Keeps-get_event ctx event)
serve-IsSound s (System.list ctx tenant archived) =
    answered _ (Keeps-list_events_of ctx tenant archived)
serve-IsSound s (System.add_member ctx tenant user role name) =
    answered _ (Keeps-add_member ctx tenant user role name)
serve-IsSound s (System.change_role ctx tenant user role) =
    answered _ (Keeps-change_role ctx tenant user role)
serve-IsSound s (System.grant_role ctx event user role) =
    answered _ (Keeps-grant_role ctx event user role)
serve-IsSound s (System.revoke_role ctx user tenant event) =
    answered _ (Keeps-revoke_role ctx user tenant event)
serve-IsSound s (System.list_members ctx tenant user) =
    answered _ (Keeps-list_memberships_of ctx tenant user)
serve-IsSound s (System.create_invitation p ctx input) =
    answered _ (Keeps-create_tenant_invitation p s.invitation_ttl ctx input)
serve-IsSound s (System.list_invitations p ctx tenant) =
    answered _ (Keeps-list_tenant_invitations p ctx tenant)
serve-IsSound s (System.revoke_invitation p ctx tenant id) =
    answered _ (Keeps-revoke_tenant_invitation p ctx tenant id)
serve-IsSound s (System.accept_invitation p ctx tenant token) =
    answered _ (Keeps-accept_tenant_invitation p ctx tenant token)

Step-IsSound : {s : Service} {d e : Db} → Step s d e → IsSound d → IsSound e
Step-IsSound {s} (served c faults d) h =
    kept_db (serve-IsSound s c) (record { db = d; faults = faults }) h
Step-IsSound (ticked now d) h = record {
  tenant_ids = h.tenant_ids;
  member_keys = h.member_keys;
  owners = h.owners;
  role_holders = h.role_holders;
  event_ids = h.event_ids;
  role_events = h.role_events;
  consistent = h.consistent;
}

-- From sound tables, any sequence of calls, by any callers and with any faults, leads to sound
-- tables: tenants and events of different IDs, one membership for a tenant and a user, an owner for
-- every owned tenant, every role on an event filed under the tenant of that event and held by a member
-- of that tenant, and a claim and a subdomain as the ownership state wants them.
pub Reachable-IsSound :
    (s : Service) (start d : Db) → IsSound start → Reachable s start d → IsSound d
Reachable-IsSound s start d h initially = h
Reachable-IsSound s start d h (then_ r step) = Step-IsSound step (Reachable-IsSound s start _ h r)

-- Whatever calls were made since the migrations, a tenant that is owned has an owner.
pub owners_remain :
    (s : Service) (d : Db)
    → Reachable s empty d
    → (id : String) {t : TenantRow} → by_id id d ≡ some t
    → str_eq t.ownership_state "owned" ≡ true
    → 0 < count_owners id d
unfolding by_id count_owners
owners_remain s d r id {t} found owned =
    let sound =
      Reachable-IsSound s empty d
        (record {
          tenant_ids = tt;
          member_keys = tt;
          owners = tt;
          role_holders = tt;
          event_ids = tt;
          role_events = tt;
          consistent = tt;
        })
        r in
    let (has, same) =
      All-find (HasOwner d.memberships) (λ t. str_eq t.id id) d.tenants sound.owners found in
    rw (sym ((eq_iff t.id id).0 same)) (has owned)
