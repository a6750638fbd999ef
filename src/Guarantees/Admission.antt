-- ===== src/Guarantees/Admission.antt =====
-- Administrative writes go through for current owners of the authenticated tenant alone.
use tolo_tenant_management.Prelude.{
  ℕ, ◌≡◌, refl, sym, ap, ◌∙◌, String, true, false, not, ◌&&◌, some, inl, inr, arith, str_eq, eq_iff,
  Option-cases, Bool-cases,
}
use tolo_tenant_management.Failure.{Result, ok}
use tolo_tenant_management.Context.{
  Context, ensure, subject_from_context, tenant_public_id_from_context,
}
use tolo_tenant_management.Text.{is_empty}
use tolo_tenant_management.Domain.Role.{Role}
use tolo_tenant_management.Domain.Tenant
use tolo_tenant_management.Domain.Tenant.{Tenant, is_owned, OwnershipState}
use tolo_tenant_management.Store.{TenantRow, Db}
use tolo_tenant_management.Store.Tenants.{by_public_id}
use tolo_tenant_management.Transaction.Atomic.{inside}
use tolo_tenant_management.Repository.Tenants.{find_tenant_by_public_id}
use tolo_tenant_management.RelationService.Gates.{resolve_tenant, writable_tenant}
use tolo_tenant_management.Token.{Platform}
use tolo_tenant_management.RelationService.Invitations as Invitations
use tolo_tenant_management.RelationService.Members as Members
use tolo_tenant_management.TenantService.Administration as Administration
use tolo_tenant_management.Guarantees.{
  Proves, Reads, Proves-first, Proves-map, Proves-known, Proves-next, Proves-unless, Proves-run,
  Reads-bind, Reads-lift, Reads-pure, Reads-unless, Reads-with,
}
use tolo_tenant_management.Guarantees.Lookup.{
  Stored, Reads-find_tenant, Reads-find_for_update, tenant_of-eq_ok,
}
use tolo_tenant_management.Guarantees.Permission.{
  MayWrite, Reads-allowed, Proves-with_current_permission,
}

-- The tenant that the caller is authenticated for is the one that is named.
pub ensure-eq_ok :
    (ctx : Context) (public_id : String)
    → ensure ctx public_id ≡ ok tt
    → tenant_public_id_from_context ctx ≡ some public_id
unfolding ensure
ensure-eq_ok ctx public_id h = elim (Option-cases (tenant_public_id_from_context ctx)) [
  | inl e ↦ ground (arith, h)
  | inr (t, e) ↦ elim (Bool-cases (str_eq t public_id)) [
    | inl same ↦ e ∙ ap some ((eq_iff t public_id).0 same)
    | inr differs ↦ ground (arith, h)
  ]
]

-- what an administrative write was let through on
pub record Admitted (ctx : Context) (public_id : String) (d : Db) : Type 0 where
  pub row : TenantRow
  pub found : by_public_id public_id d ≡ some row
  pub authenticated : tenant_public_id_from_context ctx ≡ some public_id
  pub owned : row.ownership_state ≡ "owned"
  pub unarchived : row.archived ≡ false
  pub permitted : MayWrite ctx row.id d

pub owned_name : (s : OwnershipState) → is_owned s ≡ true → Tenant.to_string s ≡ "owned"
unfolding Tenant.to_string
owned_name Tenant.owned h = refl
owned_name Tenant.unspecified h = ground arith
owned_name Tenant.pending_owner h = ground arith
owned_name (Tenant.other n) h = ground arith

-- what the gates have checked of a tenant
abbrev pub Usable : Context → String → Db → Tenant → Type 0
Usable ctx public_id d t =
    Stored ctx (by_public_id public_id) d t
    × (tenant_public_id_from_context ctx ≡ some public_id)
    × (is_owned t.ownership_state ≡ true)
    × (t.archived ≡ false)

module _ {d : Db} (ctx : Context) (public_id : String) where
  admitted :
      (t : Tenant) → Usable ctx public_id d t → MayWrite ctx t.id d → Admitted ctx public_id d
  admitted t ((row, e, made), named, o, a) k =
      let (same_id, same_mark, state) = tenant_of-eq_ok row t ctx made in
      record {
        row = row;
        found = e;
        authenticated = named;
        owned = sym state ∙ owned_name t.ownership_state o;
        unarchived = sym same_mark ∙ a;
        permitted = rw same_id at k;
      }

  pub Reads-resolve_tenant : Reads d (resolve_tenant ctx public_id) (λ t.
      Stored ctx (by_public_id public_id) d t
      × (tenant_public_id_from_context ctx ≡ some public_id))
  unfolding resolve_tenant find_tenant_by_public_id
  Reads-resolve_tenant = Reads-unless (is_empty public_id) _ _ (λ _.
      Reads-bind _ _ (Reads-lift _) (λ _ e.
        Reads-with _ (Reads-find_tenant ctx (by_public_id public_id))
          (ensure-eq_ok ctx public_id e)))

  pub Reads-writable_tenant : Reads d (writable_tenant ctx public_id) (Usable ctx public_id d)
  unfolding writable_tenant
  Reads-writable_tenant = Reads-bind _ _ Reads-resolve_tenant (λ t h.
      Reads-bind {R = λ _. (is_owned t.ownership_state ≡ true) × (t.archived ≡ false)} _ _
        (Reads-unless (not (is_owned t.ownership_state)) _ _
          (λ o. Reads-unless t.archived _ _ (λ a. Reads-pure tt (ground (arith, o), a))))
        (λ _ k. Reads-pure t (h.0, h.1, k.0, k.1)))

  pub Proves-change_role :
      (user_id : String) (role : Role)
      → Proves d (Members.change_tenant_role ctx public_id user_id role) (Admitted ctx public_id d)
  unfolding Members.change_tenant_role
  Proves-change_role user_id role = Proves-unless (is_empty user_id) _ _ (λ _.
      Proves-next _ _ (Reads-lift _) (λ _ _.
        Proves-next _ _ Reads-writable_tenant
          (λ t h. Proves-map _ (admitted t h) (Proves-with_current_permission ctx t.id _))))

  Proves-revoke_in_tenant :
      (user_id : String)
      → Proves d (Members.revoke_in_tenant ctx public_id user_id) (Admitted ctx public_id d)
  unfolding Members.revoke_in_tenant
  Proves-revoke_in_tenant user_id =
      Proves-next _ _ Reads-writable_tenant
        (λ t h. Proves-map _ (admitted t h) (Proves-with_current_permission ctx t.id _))

  pub Proves-create_invitation :
      (p : Platform) (ttl : ℕ) (role : Role) (name : String)
      → Proves d
          (Invitations.create_tenant_invitation p ttl ctx
            (record { tenant_public_id = public_id; role = role; display_name = name }))
          (Admitted ctx public_id d)
  unfolding Invitations.create_tenant_invitation Invitations.store_invitation
  Proves-create_invitation p ttl role name = Proves-next _ _ (Reads-lift _) (λ _ _.
      Proves-next _ _ (Reads-lift _) (λ _ _. Proves-next _ _ Reads-writable_tenant (λ t h.
        Proves-next _ _ (Reads-lift _) (λ _ _. Proves-next _ _ (Reads-lift _) (λ _ _.
          Proves-next _ _ (Reads-lift _) (λ token _.
            Proves-first _ _
              (Proves-map _ (admitted t h) (Proves-with_current_permission ctx t.id _))))))))

  Proves-administer :
      (mutate : Tenant → Result Tenant)
      → Proves d
          (Administration.administer public_id mutate ctx)
          (tenant_public_id_from_context ctx ≡ some public_id → Admitted ctx public_id d)
  unfolding Administration.administer Administration.write_permitted
  Proves-administer mutate =
      Proves-next _ _ (Reads-find_for_update ctx public_id) (λ p (row, e, made, _).
        Proves-unless (not (is_owned p.0.ownership_state)) _ _ (λ o.
          Proves-unless p.0.archived _ _ (λ a.
            Proves-next _ _ (Reads-allowed ctx p.0.id) (λ permitted k.
              Proves-unless (not permitted) _ _ (λ n. Proves-known _ (λ named.
                admitted p.0 ((row, e, made), named, ground (arith, o), a)
                  (k (ground (arith, n)))))))))

same_tenant :
    (ctx : Context) → tenant_public_id_from_context (inside ctx) ≡ tenant_public_id_from_context ctx
unfolding tenant_public_id_from_context
same_tenant ctx = refl

module _ {d : Db} (ctx : Context) (public_id : String) where
  outside : Admitted (inside ctx) public_id d → Admitted ctx public_id d
  unfolding subject_from_context tenant_public_id_from_context
  outside h = record {
    row = h.row;
    found = h.found;
    authenticated = h.authenticated;
    owned = h.owned;
    unarchived = h.unarchived;
    permitted = h.permitted;
  }

  pub Proves-administer_tenant :
      (mutate : Tenant → Result Tenant)
      → Proves d (Administration.administer_tenant ctx public_id mutate) (Admitted ctx public_id d)
  unfolding Administration.administer_tenant
  Proves-administer_tenant mutate = Proves-unless (is_empty public_id) _ _ (λ _.
      Proves-next _ _ (Reads-lift _) (λ _ e.
        let named = ensure-eq_ok ctx public_id e in
        Proves-run ctx _ (Proves-map _ (λ k. k named) (Proves-administer ctx public_id mutate)) (
          Proves-map _ (λ k. outside (k (same_tenant ctx ∙ named)))
            (Proves-administer (inside ctx) public_id mutate))))

  pub Proves-change_contract :
      (plan : String)
      → Proves d
          (Administration.change_tenant_contract ctx public_id plan)
          (Admitted ctx public_id d)
  unfolding Administration.change_tenant_contract
  Proves-change_contract plan = Proves-unless (is_empty plan) _ _ (λ _. Proves-administer_tenant _)

  pub Proves-revoke_role :
      (user_id event_public_id : String)
      → is_empty public_id ≡ false
      → Proves d
          (Members.revoke_role ctx user_id public_id event_public_id)
          (Admitted ctx public_id d)
  unfolding Members.revoke_role
  Proves-revoke_role user_id event_public_id e = Proves-unless (is_empty user_id) _ _ (λ _.
      Proves-unless (not (is_empty public_id) && not (is_empty event_public_id)) _ _
        (λ _. rw e (Proves-revoke_in_tenant ctx public_id user_id)))
