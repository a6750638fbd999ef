-- ===== src/Invariant/Tenants.antt =====
-- The statements on `tenants` keep the tables sound.
use tolo_tenant_management.Prelude.{
  ℕ, ◌<◌, ◌≡◌, refl, String, Bool, true, false, not, ◌&&◌, inl, inr, Option, ◌∷◌, arith, str_eq,
  eq_iff, any, count_of, reject, rewrite, find, All, All-reject, All-rewrite, Distinct-reject,
  Distinct-rewrite, Option-cases, count-reject, any-of_reject, and-eq_true, All-both,
  Distinct-unshared,
}
use tolo_tenant_management.Store.{TenantRow, MembershipRow, EventRow, Db}
use tolo_tenant_management.Store.Checked.{Passes, checked_elim}
use tolo_tenant_management.Store.Tenants.{
  insert, delete_expired, mark_owned, set_plan_archived, expired_pending, tenant_checks, update,
  is_some, claimable, with_owner,
}
use tolo_tenant_management.Store.Memberships.{is_member, is_owner_of}
use tolo_tenant_management.Invariant.{IsSound, same_tenant, same_member, same_event, is_event_of}

not-eq_false : (b : Bool) → not b ≡ false → b ≡ true
not-eq_false true h = refl
not-eq_false false h = ground arith

-- A new tenant that is not owned yet.
pub insert-IsSound :
    (t : TenantRow)
    → str_eq t.ownership_state "owned" ≡ false
    → (d : Db) → IsSound d
    → IsSound (insert t d).1
unfolding insert
insert-IsSound t fresh d s =
    checked_elim IsSound (tenant_checks t d.tenants) 1 (record d { tenants = t ∷ d.tenants }) d s
      λ p. record {
        tenant_ids = (p.1.1.1.1.1.1.1.0, s.tenant_ids);
        member_keys = s.member_keys;
        owners = (λ owned. ground arith, s.owners);
        role_holders = s.role_holders;
        event_ids = s.event_ids;
        role_events = s.role_events;
        consistent = ((not-eq_false _ p.1.1.1.1.0, not-eq_false _ p.1.1.1.1.1.1.0), s.consistent);
      }

same_tenant_comm : (a b : TenantRow) → same_tenant a b ≡ same_tenant b a
same_tenant_comm a b = ground (arith, eq_iff b.id a.id, eq_iff a.id b.id)

-- a membership whose tenant has the ID of another text
is_member-at :
    (P : String → Type 0) (tenant_id user_id : String) (m : MembershipRow)
    → is_member tenant_id user_id m ≡ true
    → P tenant_id
    → P m.tenant_id
is_member-at P tenant_id user_id m e h =
    rw ((eq_iff m.tenant_id tenant_id).0 (and-eq_true _ _ e).0) h

is_owner_of-at :
    (P : String → Type 0) (tenant_id : String) (m : MembershipRow)
    → is_owner_of tenant_id m ≡ true
    → P tenant_id
    → P m.tenant_id
is_owner_of-at P tenant_id m e h = rw ((eq_iff m.tenant_id tenant_id).0 (and-eq_true _ _ e).0) h

is_event_of-at :
    (P : String → Type 0) (event_id tenant_id : String) (e : EventRow)
    → is_event_of event_id tenant_id e ≡ true
    → P tenant_id
    → P e.tenant_id
is_event_of-at P event_id tenant_id e o h =
    rw
      ((eq_iff e.tenant_id tenant_id).0
        (and-eq_true (str_eq e.id event_id) (str_eq e.tenant_id tenant_id) o).1)
      h

-- Pending tenants whose claims expired go, and all that belongs to them.
pub delete_expired-IsSound : (now : ℕ) (d : Db) → IsSound d → IsSound (delete_expired now d).1
unfolding delete_expired
delete_expired-IsSound now d s =
    let gone = λ (id : String). any (λ t. expired_pending now t && str_eq t.id id) d.tenants in
    record {
      tenant_ids = Distinct-reject same_tenant (expired_pending now) d.tenants s.tenant_ids;
      member_keys = Distinct-reject same_member (λ m. gone m.tenant_id) d.memberships s.member_keys;
      owners =
          All-reject (expired_pending now)
            (λ t e k owned.
              rw
                (count-reject (λ m. gone m.tenant_id) (is_owner_of t.id)
                  (λ m o. is_owner_of-at (λ id. gone id ≡ false) t.id m o (k.0 e)) d.memberships)
                (k.1 owned))
            d.tenants
            (All-both _ _ d.tenants
              (Distinct-unshared same_tenant (expired_pending now) same_tenant_comm d.tenants
                s.tenant_ids)
              s.owners);
      role_holders =
          All-reject (λ r. gone r.tenant_id)
            (λ r e k.
              any-of_reject (λ m. gone m.tenant_id) (is_member r.tenant_id r.user_id)
                (λ m o. is_member-at (λ id. gone id ≡ false) r.tenant_id r.user_id m o e)
                d.memberships k)
            d.event_roles s.role_holders;
      event_ids = Distinct-reject same_event (λ e. gone e.tenant_id) d.events s.event_ids;
      role_events =
          All-reject (λ r. gone r.tenant_id)
            (λ r n k.
              any-of_reject (λ e. gone e.tenant_id) (is_event_of r.event_id r.tenant_id)
                (λ e o. is_event_of-at (λ id. gone id ≡ false) r.event_id r.tenant_id e o n)
                d.events k)
            d.event_roles s.role_events;
      consistent = All-reject (expired_pending now) (λ t e k. k) d.tenants s.consistent;
    }

-- an UPDATE either leaves the tables alone, or rewrites the rows it picks
pub update-elim :
    (Q : Db → Type 0) (here : TenantRow → Bool) (change : TenantRow → TenantRow) (d : Db)
    → Q d
    → ((t : TenantRow)
        → All Passes (tenant_checks (change t) (reject here d.tenants))
        → Q (record d { tenants = rewrite here change d.tenants }))
    → Q (update here change d).1
update-elim Q here change d h k = elim (Option-cases (find here d.tenants)) [
  | inl e ↦ rw (e, update) h
  | inr (t, e) ↦
      rw (e, update)
        (checked_elim Q (tenant_checks (change t) (reject here d.tenants)) (count_of here d.tenants)
          (record d { tenants = rewrite here change d.tenants }) d h (k t))
]

-- A pending tenant that has an owner among the memberships becomes owned.
pub mark_owned-IsSound :
    (id : String) (subdomain : Option String) (d : Db)
    → 0 < count_of (is_owner_of id) d.memberships
    → IsSound d
    → IsSound (mark_owned id subdomain d).1
unfolding mark_owned
mark_owned-IsSound id subdomain d o s =
    let here = claimable id in
    let change = with_owner subdomain in
    update-elim IsSound here change d s λ t p. record {
      tenant_ids =
          Distinct-rewrite same_tenant here change (λ a b. refl) (λ a b. refl) d.tenants
            s.tenant_ids;
      member_keys = s.member_keys;
      owners =
          All-rewrite here change (λ u e k owned. rw ((eq_iff u.id id).0 (and-eq_true _ _ e).0) o)
            (λ u e k. k) d.tenants s.owners;
      role_holders = s.role_holders;
      event_ids = s.event_ids;
      role_events = s.role_events;
      consistent =
          All-rewrite here change
            (λ u e k. (refl, not-eq_false (is_some subdomain) p.1.1.1.1.1.1.0)) (λ u e k. k)
            d.tenants s.consistent;
    }

-- A new plan, or the archived mark, touches neither the ownership nor a key.
pub set_plan_archived-IsSound :
    (id plan : String) (archived : Bool) (d : Db)
    → IsSound d
    → IsSound (set_plan_archived id plan archived d).1
unfolding set_plan_archived
set_plan_archived-IsSound id plan archived d s =
    let here = λ (t : TenantRow). str_eq t.id id in
    let change = λ (t : TenantRow). record t { contract_plan = plan; archived = archived } in
    update-elim IsSound here change d s λ t p. record {
      tenant_ids =
          Distinct-rewrite same_tenant here change (λ a b. refl) (λ a b. refl) d.tenants
            s.tenant_ids;
      member_keys = s.member_keys;
      owners = All-rewrite here change (λ u e k. k) (λ u e k. k) d.tenants s.owners;
      role_holders = s.role_holders;
      event_ids = s.event_ids;
      role_events = s.role_events;
      consistent = All-rewrite here change (λ u e k. k) (λ u e k. k) d.tenants s.consistent;
    }
