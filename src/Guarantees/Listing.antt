-- ===== src/Guarantees/Listing.antt =====
-- What GetEvent and ListEvents answer: internal/tenant/application/tenant.go.
use tolo_tenant_management.Prelude.{
  ◌≤◌, ◌≡◌, ◌≢◌, refl, sym, ap, ◌∙◌, String, Bool, true, false, not, some, arith, List, All,
  All-select, All-sort, All-take, length, length-take, select, sort, str_eq, eq_iff, and-eq_true,
}
use tolo_tenant_management.Text.{is_empty}
use tolo_tenant_management.Failure
use tolo_tenant_management.Failure.{Result, ok, err, wrapped, wrapped-eq_ok}
use tolo_tenant_management.Failure.Traverse.{traverse-eq_ok}
use tolo_tenant_management.Context.{Context, verify_ownership, tenant_public_id_from_context}
use tolo_tenant_management.Domain.Enum.{name-parse_among}
use tolo_tenant_management.Domain.Event
use tolo_tenant_management.Domain.Event.{Event, EventStatus, declared}
use tolo_tenant_management.Store.{Db, EventRow}
use tolo_tenant_management.Store.Events.{list, listed, earlier}
use tolo_tenant_management.Store.Tenants.{by_public_id}
use tolo_tenant_management.Exec.{World}
use tolo_tenant_management.Exec.Triple.{Triple-statement, Triple-conseq}
use tolo_tenant_management.Repository.Events.{event_of, list_events_by_tenant_id, max_list_events}
use tolo_tenant_management.Repository.Tenants.{find_tenant_by_public_id}
use tolo_tenant_management.TenantService.Administration.{resolve_tenant}
use tolo_tenant_management.TenantService.Events.{list_events}
use tolo_tenant_management.Guarantees.{
  Reads, Reads-bind, Reads-lift, Reads-pure, Reads-unless, Leads-next, led,
}
use tolo_tenant_management.Guarantees.Admission.{ensure-eq_ok}
use tolo_tenant_management.Guarantees.Boundary.{verified}
use tolo_tenant_management.Guarantees.Lookup.{Reads-find_tenant}

module _ (row : EventRow) (e : Event) where
  -- the event that parsed columns make
  abbrev assembled : Result EventStatus → Result (Unit {0}) → Result Event
  assembled status owner = Failure.◌>>=◌ status λ s. Failure.◌>>=◌ owner λ _. ok (record {
    id = row.id;
    public_id = row.public_id;
    tenant_id = row.tenant_id;
    tenant_public_id = row.tenant_public_id;
    name = row.name;
    status = s;
  })

  assembled-eq_ok :
      (status : Result EventStatus) (owner : Result (Unit {0}))
      → assembled status owner ≡ ok e
      → (owner ≡ ok tt)
        × (e.tenant_public_id ≡ row.tenant_public_id)
        × (status ≡ ok e.status)
        × (e.tenant_id ≡ row.tenant_id)
  assembled-eq_ok (ok s) (ok u) h = (refl, ground (arith, h), ground (arith, h), ground (arith, h))
  assembled-eq_ok (ok s) (err x) h = ground arith
  assembled-eq_ok (err x) owner h = ground arith

  pub event_of-eq_ok :
      (ctx : Context)
      → event_of ctx row ≡ ok e
      → (verify_ownership ctx row.tenant_public_id ≡ ok tt)
        × (e.tenant_public_id ≡ row.tenant_public_id)
        × (Event.to_string e.status ≡ row.status)
        × (e.tenant_id ≡ row.tenant_id)
  unfolding event_of Event.parse
  event_of-eq_ok ctx h =
      let (owner, tenant, status, id) =
        assembled-eq_ok (wrapped (Event.parse row.status))
          (verify_ownership ctx row.tenant_public_id) h in
      (
        owner,
        tenant,
        name-parse_among Event.to_string declared row.status (wrapped-eq_ok _ status),
        id,
      )

-- what a listing shows of an event
abbrev pub Qualifies : String → Bool → Event → Type 0
Qualifies tenant_public_id include_archived e =
    (e.tenant_public_id ≡ tenant_public_id) × (include_archived ≡ false → e.status ≢ Event.archived)

listed_name :
    (tenant_id : String) (row : EventRow)
    → listed tenant_id false row ≡ true
    → (s : EventStatus) → Event.to_string s ≡ row.status
    → s ≢ Event.archived
unfolding Event.to_string
listed_name tenant_id row h s e same = ground (
  arith,
  (and-eq_true (str_eq row.tenant_id tenant_id) (not (str_eq row.status "archived")) h).1,
  (eq_iff row.status "archived").1 (sym e ∙ ap Event.to_string same),
)

module _ (tenant_id : String) (include_archived : Bool) (d : Db) where
  All-listed :
      All
        (λ row. listed tenant_id include_archived row ≡ true)
        (list tenant_id include_archived max_list_events d)
  unfolding list
  All-listed =
      All-take _ max_list_events _
        (All-sort _ earlier _ (All-select (listed tenant_id include_archived) d.events))

  length-list : length (list tenant_id include_archived max_list_events d) ≤ 1000
  unfolding list
  length-list =
      length-take max_list_events
        (sort earlier (select (listed tenant_id include_archived) d.events))

module _ (ctx : Context) (t : String) where
  abbrev Bounded : Type 0
  Bounded = (tenant_public_id_from_context ctx ≡ some t) × (is_empty t ≡ false)

  shown :
      (tenant_id : String) (include_archived : Bool)
      → Bounded
      → (row : EventRow) (e : Event) → listed tenant_id include_archived row ≡ true
      → event_of ctx row ≡ ok e
      → Qualifies t include_archived e
  shown tenant_id include_archived b row e k made =
      let (owner, tenant, name, _) = event_of-eq_ok row e ctx made in
      (
        tenant ∙ verified ctx row.tenant_public_id t b.0 b.1 owner,
        λ n. listed_name tenant_id row (rw n at k) e.status name,
      )

  Reads-list_events_by_tenant_id :
      {d : Db} (tenant_id : String) (include_archived : Bool)
      → Bounded
      → Reads d
          (list_events_by_tenant_id ctx tenant_id
            (record { include_archived = include_archived; limit = max_list_events }))
          (λ es. All (Qualifies t include_archived) es × (length es ≤ 1000))
  unfolding list_events_by_tenant_id
  Reads-list_events_by_tenant_id {d} tenant_id include_archived b =
      Reads-bind {R = λ rows. rows ≡ list tenant_id include_archived max_list_events d} _ _
        (Triple-statement _ (λ x h. (h, ap (list tenant_id include_archived max_list_events) h))
          (λ x y h. tt) (λ x y h. tt))
        (λ rows same.
          Triple-conseq _ (λ x h. h)
            (λ es x h.
              let (all, long) =
                traverse-eq_ok (event_of ctx) (shown tenant_id include_archived b) rows
                  (rw same (All-listed tenant_id include_archived d)) h.1 in
              (h.0, (all, rw (long, same) (length-list tenant_id include_archived d))))
            (λ e x h. h) (Reads-lift _))

module _ {d : Db} (ctx : Context) (id : String) where
  Reads-resolved : Reads d (resolve_tenant ctx id) (λ _. Bounded ctx id)
  unfolding resolve_tenant find_tenant_by_public_id
  Reads-resolved = Reads-unless (is_empty id) _ _ (λ b. Reads-bind _ _ (Reads-lift _) (λ _ e.
      Reads-bind _ _ (Reads-find_tenant ctx (by_public_id id))
        (λ tenant _. Reads-unless _ _ _ (λ o. Reads-pure tenant (ensure-eq_ok ctx id e, b)))))

-- ListEvents answers 1000 events at most, each of the tenant that is asked for, which is the one that
-- the context is bound to; an archived event is among them only where archived ones are asked for.
pub listed_events_are_bounded :
    (ctx : Context) (tenant_public_id : String) (include_archived : Bool) (w : World)
    (es : List Event) (w' : World)
    → list_events ctx tenant_public_id include_archived w ≡ (ok es, w')
    → (tenant_public_id_from_context ctx ≡ some tenant_public_id)
      × All (Qualifies tenant_public_id include_archived) es
      × (length es ≤ 1000)
unfolding list_events
listed_events_are_bounded ctx id include_archived w es w' h =
    led
      {Q = λ es _.
        (tenant_public_id_from_context ctx ≡ some id)
        × All (Qualifies id include_archived) es
        × (length es ≤ 1000)}
      _
      (Leads-next _ _ (Reads-resolved ctx id) (λ tenant b.
        Triple-conseq _ (λ x k. k) (λ es x k. (b.0, k.1.0, k.1.1)) (λ e x k. k)
          (Reads-list_events_by_tenant_id ctx id tenant.id include_archived b)))
      h
