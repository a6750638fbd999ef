-- ===== src/Guarantees/Lookup.antt =====
-- What a tenant that was found tells of the tables, and what the gates before a write check of it.
use tolo_tenant_management.Prelude.{
  ◌≡◌, refl, String, Option, none, some, inl, inr, arith, Option-cases,
}
use tolo_tenant_management.Failure
use tolo_tenant_management.Failure.{Err, sentinel, Result, ok, err, no_rows, wrapped, wrapped-eq_ok}
use tolo_tenant_management.Context.{Context, verify_ownership}
use tolo_tenant_management.Domain.Enum.{name-parse_among}
use tolo_tenant_management.Domain.Tenant
use tolo_tenant_management.Domain.Tenant.{
  Tenant, OwnershipClaim, OwnershipState, is_owned, declared,
}
use tolo_tenant_management.Domain.Subdomain.{Subdomain}
use tolo_tenant_management.Store.{TenantRow, Db}
use tolo_tenant_management.Store.Checked.{Left}
use tolo_tenant_management.Store.Tenants.{by_public_id}
use tolo_tenant_management.Exec.{map_error}
use tolo_tenant_management.Exec.Triple.{Triple-statement, Triple-map_error, Triple-lift}
use tolo_tenant_management.Repository.{get}
use tolo_tenant_management.Repository.Tenants.{
  tenant_of, claim_of, subdomain_of, find_tenant, find_tenant_by_public_id_for_update,
}
use tolo_tenant_management.Guarantees.{Any, Reads, Reads-bind, Reads-lift, Reads-pure}

-- the row of a tenant, and the tenant that was made of it
abbrev pub Stored : Context → (Db → Option TenantRow) → Db → Tenant → Type 0
Stored ctx f d t = (row : TenantRow) × (f d ≡ some row) × (tenant_of ctx row ≡ ok t)

module _ {d : Db} where
  got :
      {R : Type 0} (f : Db → Option R) (x : Db)
      → x ≡ d
      → Left
          (λ r y. (y ≡ d) × (f d ≡ some r))
          Any
          (elim (f x) [ none ↦ err (sentinel no_rows) | some r ↦ ok r ], x)
  got f x same = elim (Option-cases (f x)) [
    | inl e ↦ rw e tt
    | inr (r, e) ↦ rw e (same, rw same at e)
  ]

  pub Reads-get :
      {R : Type 0} (f : Db → Option R) (g : Err → Err)
      → Reads d (map_error g (get f)) (λ r. f d ≡ some r)
  Reads-get f g =
      Triple-map_error {R = Any} g (get f) (Triple-statement _ (got f) (λ x y h. tt) (λ x y h. tt))
        (λ e y h. tt)

  pub Reads-find_tenant :
      (ctx : Context) (f : Db → Option TenantRow) → Reads d (find_tenant ctx f) (Stored ctx f d)
  unfolding find_tenant
  Reads-find_tenant ctx f =
      Reads-bind _ _ (Reads-get f _)
        (λ row e. Triple-lift _ (λ t k x h. (h, (row, e, k))) (λ x e y h. tt))

  pub Reads-find_for_update :
      (ctx : Context) (public_id : String)
      → Reads d
          (find_tenant_by_public_id_for_update ctx public_id)
          (λ (p : Tenant × OwnershipClaim).
            (row : TenantRow) × (by_public_id public_id d ≡ some row)
            × (tenant_of ctx row ≡ ok p.0)
            × (p.1 ≡ claim_of row))
  unfolding find_tenant_by_public_id_for_update
  Reads-find_for_update ctx public_id =
      Reads-bind _ _ (Reads-get (by_public_id public_id) _) (λ row e.
        Reads-bind _ _ (Reads-lift _) (λ t k. Reads-pure (t, claim_of row) (row, e, k, refl)))

module _ (row : TenantRow) (t : Tenant) where
  -- the tenant that parsed columns make
  abbrev assembled : Result OwnershipState → Result Subdomain → Result (Unit {0}) → Result Tenant
  assembled state subdomain owner = Failure.◌>>=◌ state λ s. Failure.◌>>=◌ subdomain λ u.
      Failure.◌>>=◌ owner λ _. ok (record {
        id = row.id;
        public_id = row.public_id;
        name = row.name;
        contract_plan = row.contract_plan;
        ownership_state = s;
        subdomain = u;
        archived = row.archived;
      })

  assembled-eq_ok :
      (state : Result OwnershipState) (subdomain : Result Subdomain) (owner : Result (Unit {0}))
      → assembled state subdomain owner ≡ ok t
      → (t.id ≡ row.id) × (t.archived ≡ row.archived) × (state ≡ ok t.ownership_state)
  assembled-eq_ok (ok s) (ok u) (ok v) h = (ground (arith, h), ground (arith, h), ground (arith, h))
  assembled-eq_ok (ok s) (ok u) (err e) h = ground arith
  assembled-eq_ok (ok s) (err e) owner h = ground arith
  assembled-eq_ok (err e) subdomain owner h = ground arith

  -- A tenant that was made of a row has its key, its archived mark and its state.
  pub tenant_of-eq_ok :
      (ctx : Context)
      → tenant_of ctx row ≡ ok t
      → (t.id ≡ row.id)
        × (t.archived ≡ row.archived)
        × (Tenant.to_string t.ownership_state ≡ row.ownership_state)
  unfolding tenant_of Tenant.parse
  tenant_of-eq_ok ctx h =
      let (same_id, same_mark, state) =
        assembled-eq_ok (wrapped (Tenant.parse row.ownership_state)) (subdomain_of row.subdomain)
          (verify_ownership ctx row.public_id) h in
      (
        same_id,
        same_mark,
        name-parse_among Tenant.to_string declared row.ownership_state (wrapped-eq_ok _ state),
      )
