-- ===== src/Invariant/Memberships.antt =====
-- The statements on `tenant_memberships` and `event_roles` keep the tables sound.
use tolo_tenant_management.Prelude.{
  ◌<◌, ◌≡◌, refl, sym, ◌∙◌, String, true, false, ◌&&◌, ◌⊎◌, inl, inr, none, some, ◌∷◌, arith,
  str_eq, str_eq_refl, eq_iff, any, count_of, reject, rewrite, find, All, All-map, All-reject,
  All-rewrite, Distinct-reject, Distinct-rewrite, Distinct-count, Distinct-find, Bool-cases,
  Option-cases, count-rewrite, count-reject, count-ge-rewrite, any-rewrite, any-of_reject,
  any-of_find, any-found, count-and_none, reject-none, and-eq_true, Spares, Spares-reject,
  Spares-rewrite,
}
use tolo_tenant_management.Store.{violation, MembershipRow, EventRoleRow, EventRow, TenantRow, Db}
use tolo_tenant_management.Store.Checked.{checked_elim, Passes}
use tolo_tenant_management.Store.Memberships.{
  insert, insert_checks, upsert_checks, with_role, set_role, set_role_checks, delete,
  delete_event_role, upsert_event_role, put_event_role, role_of, is_member, is_owner_of,
  holds_event_role, count_owners,
}
use tolo_tenant_management.Invariant.{IsSound, HasOwner, OfMember, same_member, is_event_of}

-- Rows of one key are rows of the same member.
same_member-key :
    (tenant_id user_id : String) (a b : MembershipRow)
    → is_member tenant_id user_id a ≡ true
    → is_member tenant_id user_id b ≡ true
    → same_member a b ≡ true
same_member-key tenant_id user_id a b p q =
    let (s, t) = and-eq_true _ _ p in
    let (u, v) = and-eq_true _ _ q in
    rw (
      (eq_iff a.tenant_id tenant_id).0 s,
      (eq_iff a.user_id user_id).0 t,
      (eq_iff b.tenant_id tenant_id).0 u,
      (eq_iff b.user_id user_id).0 v,
      str_eq_refl tenant_id,
      str_eq_refl user_id,
    )

parts :
    (tenant_id user_id : String) (m : MembershipRow)
    → is_member tenant_id user_id m ≡ true
    → (m.tenant_id ≡ tenant_id) × (m.user_id ≡ user_id)
parts tenant_id user_id m h =
    let (s, t) = and-eq_true _ _ h in
    ((eq_iff m.tenant_id tenant_id).0 s, (eq_iff m.user_id user_id).0 t)

-- What unseating a member may not undo: that somebody owns the tenant.
abbrev pub Unseatable : String → String → Db → Type 0
Unseatable tenant_id user_id d =
    Spares (is_member tenant_id user_id) (is_owner_of tenant_id) d.memberships

-- a membership of another tenant than t is none of t's owners
stranger :
    (t : TenantRow) (tenant_id user_id : String) (m : MembershipRow)
    → str_eq tenant_id t.id ≡ false
    → is_member tenant_id user_id m ≡ true
    → str_eq m.tenant_id t.id ≡ false
stranger t tenant_id user_id m e h = rw ((eq_iff m.tenant_id tenant_id).0 (and-eq_true _ _ h).0) e

pub stored-IsSound :
    (m : MembershipRow) (d : Db)
    → All Passes (insert_checks m d)
    → IsSound d
    → IsSound (record d { memberships = m ∷ d.memberships })
stored-IsSound m d p s = record {
  tenant_ids = s.tenant_ids;
  member_keys = (p.1.1.1.1.1.0, s.member_keys);
  owners = All-map (λ t k owned. ground (arith, k owned)) d.tenants s.owners;
  role_holders = All-map (λ r k. ground (arith, k)) d.event_roles s.role_holders;
  event_ids = s.event_ids;
  role_events = s.role_events;
  consistent = s.consistent;
}

pub insert-IsSound : (m : MembershipRow) (d : Db) → IsSound d → IsSound (insert m d).1
unfolding insert
insert-IsSound m d s =
    checked_elim IsSound (insert_checks m d) 1 (record d { memberships = m ∷ d.memberships }) d s
      λ p. stored-IsSound m d p s

module _ (tenant_id user_id : String) where
  -- another tenant's owners are untouched by what is done to a member of this one
  other-with_role :
      (role : String) (t : TenantRow)
      → str_eq tenant_id t.id ≡ false
      → (m : MembershipRow) → is_member tenant_id user_id m ≡ true
      → is_owner_of t.id (with_role role m) ≡ is_owner_of t.id m
  other-with_role role t e m h = rw (stranger t tenant_id user_id m e h)

  owners-set_role :
      (role : String) (d : Db)
      → (str_eq role "owner" ≡ true) ⊎ Unseatable tenant_id user_id d
      → (t : TenantRow) → HasOwner d.memberships t
      → HasOwner (rewrite (is_member tenant_id user_id) (with_role role) d.memberships) t
  owners-set_role role d c t h owned = elim (Bool-cases (str_eq tenant_id t.id)) [
    | inr e ↦
        rw
          (count-rewrite (is_member tenant_id user_id) (is_owner_of t.id) (with_role role)
            (other-with_role role t e) d.memberships)
          (h owned)
    | inl e ↦
        let same : tenant_id ≡ t.id = (eq_iff tenant_id t.id).0 e in
        elim c [
          | inl r ↦
              let more =
                count-ge-rewrite (is_member tenant_id user_id) (is_owner_of t.id) (with_role role)
                  (λ m k. rw ((parts tenant_id user_id m k).0, same, str_eq_refl t.id) r)
                  d.memberships in
              omega (arith, h owned, more)
          | inr spare ↦ rw (sym same) (
              Spares-rewrite (is_member tenant_id user_id) (is_owner_of tenant_id) (with_role role)
                d.memberships spare (rw (sym same) at (h owned)))
        ]
  ]

  pub set_role-IsSound :
      (role : String) (d : Db)
      → (str_eq role "owner" ≡ true) ⊎ Unseatable tenant_id user_id d
      → IsSound d
      → IsSound (set_role tenant_id user_id role d).1
  unfolding set_role
  set_role-IsSound role d c s =
      let here = is_member tenant_id user_id in
      elim (Bool-cases (any here d.memberships)) [
        | inr e ↦ rw e s
        | inl e ↦ rw e (
            checked_elim IsSound (set_role_checks role) (count_of here d.memberships)
              (record d { memberships = rewrite here (with_role role) d.memberships }) d s
              λ p. record {
                tenant_ids = s.tenant_ids;
                member_keys =
                    Distinct-rewrite same_member here (with_role role) (λ a b. refl) (λ a b. refl)
                      d.memberships s.member_keys;
                owners = All-map (owners-set_role role d c) d.tenants s.owners;
                role_holders =
                    All-map
                      (λ r k.
                        any-rewrite here (is_member r.tenant_id r.user_id) (with_role role)
                          (λ m. refl) d.memberships
                        ∙ k)
                      d.event_roles s.role_holders;
                event_ids = s.event_ids;
                role_events = s.role_events;
                consistent = s.consistent;
              })
      ]

  owners-delete :
      (d : Db)
      → Unseatable tenant_id user_id d
      → (t : TenantRow) → HasOwner d.memberships t
      → HasOwner (reject (is_member tenant_id user_id) d.memberships) t
  owners-delete d c t h owned = elim (Bool-cases (str_eq tenant_id t.id)) [
    | inr e ↦
        rw
          (count-reject (is_member tenant_id user_id) (is_owner_of t.id)
            (λ m k. elim (Bool-cases (is_member tenant_id user_id m)) [
              | inl i ↦ ground (arith, k, stranger t tenant_id user_id m e i)
              | inr i ↦ i
            ])
            d.memberships)
          (h owned)
    | inl e ↦
        let same : tenant_id ≡ t.id = (eq_iff tenant_id t.id).0 e in
        rw (sym same) (
          Spares-reject (is_member tenant_id user_id) (is_owner_of tenant_id) d.memberships c
            (rw (sym same) at (h owned)))
  ]

  holders-delete :
      (d : Db) (r : EventRoleRow)
      → (str_eq r.tenant_id tenant_id && str_eq r.user_id user_id) ≡ false
      → OfMember d.memberships r
      → OfMember (reject (is_member tenant_id user_id) d.memberships) r
  holders-delete d r e k =
      any-of_reject (is_member tenant_id user_id) (is_member r.tenant_id r.user_id)
        (λ m i. let (at, by) = parts r.tenant_id r.user_id m i in rw (at, by) e) d.memberships k

  pub delete-IsSound :
      (d : Db) → Unseatable tenant_id user_id d → IsSound d → IsSound (delete tenant_id user_id d).1
  unfolding delete
  delete-IsSound d c s =
      let here = is_member tenant_id user_id in
      record {
        tenant_ids = s.tenant_ids;
        member_keys = Distinct-reject same_member here d.memberships s.member_keys;
        owners = All-map (owners-delete d c) d.tenants s.owners;
        role_holders = elim (Bool-cases (any here d.memberships)) [
          | inl e ↦ rw e (
              All-reject (λ r. str_eq r.tenant_id tenant_id && str_eq r.user_id user_id)
                (holders-delete d) d.event_roles s.role_holders)
          | inr e ↦ rw (e, reject-none here d.memberships e) s.role_holders
        ];
        event_ids = s.event_ids;
        role_events = elim (Bool-cases (any here d.memberships)) [
          | inl e ↦ rw e (
              All-reject (λ r. str_eq r.tenant_id tenant_id && str_eq r.user_id user_id)
                (λ r n k. k) d.event_roles s.role_events)
          | inr e ↦ rw e s.role_events
        ];
        consistent = s.consistent;
      }

module _ (event_id user_id : String) where
  pub delete_event_role-IsSound :
      (d : Db) → IsSound d → IsSound (delete_event_role event_id user_id d).1
  unfolding delete_event_role
  delete_event_role-IsSound d s = record {
    tenant_ids = s.tenant_ids;
    member_keys = s.member_keys;
    owners = s.owners;
    role_holders =
        All-reject (holds_event_role event_id user_id) (λ r e k. k) d.event_roles s.role_holders;
    event_ids = s.event_ids;
    role_events =
        All-reject (holds_event_role event_id user_id) (λ r e k. k) d.event_roles s.role_events;
    consistent = s.consistent;
  }

  put_event_role-IsSound :
      (e : EventRow) (role : String) (d : Db)
      → any (is_event_of e.id e.tenant_id) d.events ≡ true
      → IsSound d
      → IsSound (put_event_role e user_id role d).1
  put_event_role-IsSound e role d there s =
      elim (Bool-cases (any (holds_event_role e.id user_id) d.event_roles)) [
        | inl h ↦ rw h (record {
          tenant_ids = s.tenant_ids;
          member_keys = s.member_keys;
          owners = s.owners;
          role_holders =
              All-rewrite (holds_event_role e.id user_id) (λ r. record r { role = role })
                (λ r h k. k) (λ r h k. k) d.event_roles s.role_holders;
          event_ids = s.event_ids;
          role_events =
              All-rewrite (holds_event_role e.id user_id) (λ r. record r { role = role })
                (λ r h k. k) (λ r h k. k) d.event_roles s.role_events;
          consistent = s.consistent;
        })
        | inr h ↦ elim (Bool-cases (any (is_member e.tenant_id user_id) d.memberships)) [
          | inr m ↦ rw (h, m) s
          | inl m ↦
              rw (h, m)
                (record {
                  tenant_ids = s.tenant_ids;
                  member_keys = s.member_keys;
                  owners = s.owners;
                  role_holders = (m, s.role_holders);
                  event_ids = s.event_ids;
                  role_events = (there, s.role_events);
                  consistent = s.consistent;
                })
        ]
      ]

  pub upsert_event_role-IsSound :
      (role : String) (d : Db) → IsSound d → IsSound (upsert_event_role event_id user_id role d).1
  unfolding upsert_event_role
  upsert_event_role-IsSound role d s =
      elim (Option-cases (find (λ e. str_eq e.id event_id) d.events)) [
        | inl e ↦ rw (e, upsert_event_role) s
        | inr (e, found) ↦ elim (Option-cases (violation (upsert_checks user_id role))) [
          | inl v ↦
              rw (found, v, upsert_event_role)
                (put_event_role-IsSound e role d
                  (any-found (λ o. str_eq o.id event_id) (is_event_of e.id e.tenant_id) d.events
                    found (λ h. rw (str_eq_refl e.id, str_eq_refl e.tenant_id) refl))
                  s)
          | inr (p, v) ↦ rw (found, v, upsert_event_role) s
        ]
      ]

module _ (tenant_id user_id : String) (d : Db) (s : IsSound d) where
  -- A user who is no member, or no owner, may be unseated.
  pub absent-Unseatable : role_of tenant_id user_id d ≡ none → Unseatable tenant_id user_id d
  unfolding role_of
  absent-Unseatable h = elim (Option-cases (find (is_member tenant_id user_id) d.memberships)) [
    | inl e ↦ inl (
        count-and_none (is_member tenant_id user_id) (is_owner_of tenant_id) d.memberships
          (any-of_find (is_member tenant_id user_id) d.memberships e))
    | inr (m, e) ↦ ground arith
  ]

  pub staff-Unseatable :
      (role : String)
      → role_of tenant_id user_id d ≡ some role
      → str_eq role "owner" ≡ false
      → Unseatable tenant_id user_id d
  unfolding role_of
  staff-Unseatable role h n =
      elim (Option-cases (find (is_member tenant_id user_id) d.memberships)) [
        | inl e ↦ ground arith
        | inr (m, e) ↦ inl (
            Distinct-find same_member (is_member tenant_id user_id) (is_owner_of tenant_id)
              (same_member-key tenant_id user_id) d.memberships s.member_keys e (ground arith))
      ]

  -- So may one of several owners.
  pub several-Unseatable : 1 < count_owners tenant_id d → Unseatable tenant_id user_id d
  unfolding count_owners
  several-Unseatable h = inr (
    h,
    Distinct-count same_member (is_member tenant_id user_id) (same_member-key tenant_id user_id)
        d.memberships s.member_keys,
  )
