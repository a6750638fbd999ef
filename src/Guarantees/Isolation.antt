-- ===== src/Guarantees/Isolation.antt =====
-- What is read stays within the tenant of the context: `Ensure` and `VerifyOwnership` of
-- internal/tenantctx, and ListMemberships.
use tolo_tenant_management.Prelude.{
  ◌≡◌, refl, sym, ap, ◌∙◌, String, Bool, true, false, some, inl, inr, arith, List, [], ◌∷◌, All,
  All-map, str_eq, eq_iff, Bool-cases, Option-cases, and-eq_true,
}
use tolo_tenant_management.Text.{is_empty}
use tolo_tenant_management.Failure
use tolo_tenant_management.Failure.{Err, wrap, Result, ok, err, wrapped, is, membership_not_found}
use tolo_tenant_management.Failure.Traverse.{traverse-eq_ok}
use tolo_tenant_management.Context.{Context, verify_ownership, tenant_public_id_from_context}
use tolo_tenant_management.Domain.Role
use tolo_tenant_management.Domain.Role.{Role}
use tolo_tenant_management.Domain.DisplayName
use tolo_tenant_management.Domain.DisplayName.{DisplayName}
use tolo_tenant_management.Domain.Membership.{Membership, EventRole}
use tolo_tenant_management.Store.{Db, MembershipRow}
use tolo_tenant_management.Store.Memberships.{MembershipView, is_member}
use tolo_tenant_management.Store.Memberships.Listed.{All-list}
use tolo_tenant_management.Exec.{World, Exec}
use tolo_tenant_management.Exec.Triple.{
  Triple-handle, Triple-pure, Triple-fail, Triple-if, Triple-conseq,
}
use tolo_tenant_management.Repository.Memberships as Repository
use tolo_tenant_management.Repository.Memberships.{membership_of, roles_at, with_roles}
use tolo_tenant_management.RelationService.Members as Members
use tolo_tenant_management.Guarantees.{
  Reads, Reads-bind, Reads-lift, Reads-pure, Reads-unless, Leads, Leads-next, led,
}
use tolo_tenant_management.Guarantees.Admission.{ensure-eq_ok}
use tolo_tenant_management.Guarantees.Boundary.{empty_text, verified, Reads-query}
use tolo_tenant_management.Guarantees.Lookup.{Reads-find_tenant}
use tolo_tenant_management.Store.Tenants.{by_public_id}
use tolo_tenant_management.Repository.Tenants.{find_tenant_by_public_id}
use tolo_tenant_management.RelationService.Gates.{resolve_tenant}

module _ (v : MembershipView) (roles : List (String × String × EventRole)) (m : Membership) where
  -- the membership that parsed columns make
  abbrev assembled : Result (Unit {0}) → Result Role → Result DisplayName → Result Membership
  assembled owner role name = Failure.◌>>=◌ owner λ _. Failure.◌>>=◌ role λ r.
      Failure.◌>>=◌ name λ n. ok (record {
        user_id = v.row.user_id;
        tenant_id = v.row.tenant_id;
        tenant_public_id = v.public_id;
        tenant_role = r;
        display_name = n;
        joined_at = v.row.joined_at;
        event_roles = roles_at v.row roles;
      })

  assembled-eq_ok :
      (owner : Result (Unit {0})) (role : Result Role) (name : Result DisplayName)
      → assembled owner role name ≡ ok m
      → (owner ≡ ok tt) × (m.tenant_public_id ≡ v.public_id) × (m.user_id ≡ v.row.user_id)
  assembled-eq_ok (ok u) (ok r) (ok n) h = (refl, ground (arith, h), ground (arith, h))
  assembled-eq_ok (ok u) (ok r) (err e) h = ground arith
  assembled-eq_ok (ok u) (err e) name h = ground arith
  assembled-eq_ok (err e) role name h = ground arith

  membership_of-eq_ok :
      (ctx : Context)
      → membership_of ctx roles v ≡ ok m
      → (verify_ownership ctx v.public_id ≡ ok tt)
        × (m.tenant_public_id ≡ v.public_id)
        × (m.user_id ≡ v.row.user_id)
  unfolding membership_of
  membership_of-eq_ok ctx h =
      assembled-eq_ok (verify_ownership ctx v.public_id) (wrapped (Role.parse v.row.tenant_role))
        (wrapped (DisplayName.parse v.row.display_name)) h

module _ (t : String) (here : MembershipRow → Bool) where
  -- a membership in the tenant, made of a row that the filter lets through
  abbrev pub Own : Membership → Type 0
  Own m =
      (m.tenant_public_id ≡ t)
      × (row : MembershipRow) × (here row ≡ true)
      × (m.user_id ≡ row.user_id)

module _ (ctx : Context) (t : String) (bounded : tenant_public_id_from_context ctx ≡ some t)
    (nonempty : is_empty t ≡ false) (here : MembershipRow → Bool) where
  own :
      (roles : List (String × String × EventRole)) (v : MembershipView) (m : Membership)
      → here v.row ≡ true
      → membership_of ctx roles v ≡ ok m
      → Own t here m
  own roles v m k made =
      let (checked, tenant, user) = membership_of-eq_ok v roles m ctx made in
      (tenant ∙ verified ctx v.public_id t bounded nonempty checked, v.row, k, user)

  Reads-with_roles :
      {d : Db} (vs : List MembershipView)
      → All (λ v. here v.row ≡ true) vs
      → Reads d (with_roles ctx here vs) (All (Own t here))
  Reads-with_roles [] h = Reads-pure [] tt
  Reads-with_roles (v ∷ vs) h = Reads-bind _ _ (Reads-query _ wrap) (λ rows _.
      Reads-bind _ _ (Reads-lift _) (λ roles _.
        Triple-conseq _ (λ x same. same)
          (λ ms x k. (k.0, (traverse-eq_ok (membership_of ctx roles) (own roles) (v ∷ vs) h k.1).0))
          (λ e x k. k) (Reads-lift _)))

  Reads-list_memberships :
      {d : Db} → Reads d (Repository.list_memberships ctx here) (All (Own t here))
  unfolding Repository.list_memberships
  Reads-list_memberships {d} =
      Reads-bind _ _ (Reads-query _ wrap) (λ vs e. Reads-with_roles vs (rw e (All-list here d)))

-- what an answered listing shows
abbrev pub Shown : Context → String → String → Membership → Type 0
Shown ctx tenant_public_id user_id m =
    (tenant_public_id_from_context ctx ≡ some m.tenant_public_id)
    × (is_empty tenant_public_id ≡ false → m.tenant_public_id ≡ tenant_public_id)
    × (is_empty user_id ≡ false → m.user_id ≡ user_id)

module _ {d : Db} (ctx : Context) (id : String) where
  Reads-resolved :
      Reads d
        (resolve_tenant ctx id)
        (λ _. (tenant_public_id_from_context ctx ≡ some id) × (is_empty id ≡ false))
  unfolding resolve_tenant find_tenant_by_public_id
  Reads-resolved = Reads-unless (is_empty id) _ _ (λ b. Reads-bind _ _ (Reads-lift _) (λ _ e.
      Triple-conseq _ (λ x h. h) (λ a x h. (h.0, (ensure-eq_ok ctx id e, b))) (λ e x h. h)
        (Reads-find_tenant ctx (by_public_id id))))

  Leads-list_by_tenant : Leads d (Members.list_by_tenant ctx id) (λ ms _. All (Shown ctx id "") ms)
  unfolding Members.list_by_tenant Repository.list_memberships_by_tenant
  Leads-list_by_tenant = Leads-next _ _ Reads-resolved (λ tenant h.
      Triple-conseq _ (λ x k. k)
        (λ ms x k. All-map (λ m own. (h.0 ∙ ap some (sym own.0), λ _. own.0, λ n. cc)) ms k.1)
        (λ e x k. k) (Reads-list_memberships ctx id h.0 h.1 (λ m. str_eq m.tenant_id tenant.id)))

module _ (ctx : Context) (id user_id : String)
    (bounded : tenant_public_id_from_context ctx ≡ some id) (nonempty : is_empty id ≡ false)
    (tenant_id : String) where
  first :
      {d : Db} (ms : List Membership)
      → All (Own id (is_member tenant_id user_id)) ms
      → Reads d (Repository.first_or_missing ms) (Own id (is_member tenant_id user_id))
  first [] h = Triple-fail _ (λ x k. tt)
  first (m ∷ ms) h = Reads-pure m h.0

  own_user : (m : Membership) → Own id (is_member tenant_id user_id) m → Shown ctx "" user_id m
  own_user m (tenant, row, k, user) = (
    bounded ∙ ap some (sym tenant),
    λ n. cc,
    λ _. user ∙ (eq_iff row.user_id user_id).0 (and-eq_true _ _ k).1,
  )

  Reads-find_membership :
      {d : Db} → Reads d (Repository.find_membership ctx tenant_id user_id) (Shown ctx "" user_id)
  unfolding Repository.find_membership
  Reads-find_membership =
      Triple-conseq _ (λ x h. h) (λ m x h. (h.0, own_user m h.1)) (λ e x h. h)
        (Reads-bind _ _
          (Reads-list_memberships ctx id bounded nonempty (is_member tenant_id user_id)) first)

module _ {d : Db} (ctx : Context) (user_id : String) where
  Leads-one_or_none :
      (m : Exec Membership)
      → Reads d m (Shown ctx "" user_id)
      → Leads d (Members.one_or_none m) (λ ms _. All (Shown ctx "" user_id) ms)
  Leads-one_or_none m h =
      Triple-handle _ _ _ h (λ found. Triple-pure _ (λ x k. (k.1, tt)))
        (λ e. Triple-if _ _ _ (Triple-pure [] (λ x k. tt)) (Triple-fail e (λ x k. tt)))

  Leads-list_by_user :
      Leads d (Members.list_by_user ctx user_id) (λ ms _. All (Shown ctx "" user_id) ms)
  unfolding Members.list_by_user
  Leads-list_by_user = elim (Option-cases (tenant_public_id_from_context ctx)) [
    | inl e ↦ rw (e, Members.list_by_user) (Triple-fail _ (λ x h. tt))
    | inr (id, e) ↦
        rw (e, Members.list_by_user)
          (Leads-next _ _ (Reads-resolved ctx id) (λ tenant h.
            Leads-one_or_none _ (Reads-find_membership ctx id user_id h.0 h.1 tenant.id)))
  ]

  Leads-list_memberships :
      (tenant_public_id : String)
      → Leads d
          (Members.list_memberships ctx tenant_public_id user_id)
          (λ ms _. All (Shown ctx tenant_public_id user_id) ms)
  unfolding Members.list_memberships
  Leads-list_memberships id = elim (Bool-cases (is_empty id)) [
    | inl unasked ↦ elim (Bool-cases (is_empty user_id)) [
      | inl nobody ↦ rw (unasked, nobody) (Triple-fail _ (λ x h. tt))
      | inr somebody ↦ rw (unasked, somebody) (rw (empty_text id unasked) Leads-list_by_user)
    ]
    | inr asked ↦ elim (Bool-cases (is_empty user_id)) [
      | inl nobody ↦
          rw (asked, nobody) (rw (empty_text user_id nobody) (Leads-list_by_tenant ctx id))
      | inr somebody ↦ rw (asked, somebody) (Triple-fail _ (λ x h. tt))
    ]
  ]

-- Memberships that ListMemberships answers, over either filter, belong to the tenant that the
-- context is bound to; they are of the tenant that is asked for, where one is, and of the user who is
-- asked for, where one is.
pub memberships_stay_within_tenant :
    (ctx : Context) (tenant_public_id user_id : String) (w : World) (ms : List Membership)
    (w' : World)
    → Members.list_memberships ctx tenant_public_id user_id w ≡ (ok ms, w')
    → All (Shown ctx tenant_public_id user_id) ms
memberships_stay_within_tenant ctx tenant_public_id user_id w ms w' h =
    led {Q = λ ms _. All (Shown ctx tenant_public_id user_id) ms} _
      (Leads-list_memberships ctx user_id tenant_public_id) h
