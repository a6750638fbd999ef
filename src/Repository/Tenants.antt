-- ===== src/Repository/Tenants.antt =====
-- internal/tenant/infra/db/tenant.go.
use tolo_tenant_management.Prelude.{
  ℕ, zero, suc, String, not, Option, none, some, List, [], ◌∷◌, str_eq, if◌then◌else◌,
}
use tolo_tenant_management.Text.{is_empty}
use tolo_tenant_management.Failure
use tolo_tenant_management.Failure.{
  Err, sentinel, wrap, as_pg, Result, ok, err, wrapped, not_pending_owner, tenant_not_found,
  tenant_public_id_exists, subdomain_exists,
}
use tolo_tenant_management.Context.{Context, verify_ownership}
use tolo_tenant_management.Domain.Subdomain
use tolo_tenant_management.Domain.Subdomain.{Subdomain, no_subdomain}
use tolo_tenant_management.Domain.Tenant
use tolo_tenant_management.Domain.Tenant.{
  Tenant, Hash, OwnershipClaim, OwnershipState, is_pending_owner, is_owned,
}
use tolo_tenant_management.Store.{TenantRow, Db}
use tolo_tenant_management.Store.Tenants as Sql
use tolo_tenant_management.Exec.{Exec, pure, fail, lift, statement, map_error, ◌>>=◌}
use tolo_tenant_management.Repository.{get, or_missing, expect_one_row}

unfoldable pub map_tenant_constraint_error : Err → Err
unfolding as_pg
map_tenant_constraint_error e = elim (as_pg e) [
  | none ↦ e
  | some p ↦
      if not (str_eq p.code "23505")
      then e
      else if str_eq p.constraint "tenants_public_id_key"
      then sentinel tenant_public_id_exists
      else if str_eq p.constraint "tenants_subdomain_key"
      then sentinel subdomain_exists
      else e
]

abbrev pub nullable_subdomain : Subdomain → Option String
nullable_subdomain s = if is_empty s.value then none else some s.value

-- `copy(claim.TokenHash[:], …)` into an array of n zero bytes
abbrev pub copy_bytes : ℕ → List ℕ → Hash
copy_bytes zero bytes = []
copy_bytes (suc n) [] = 0 ∷ copy_bytes n []
copy_bytes (suc n) (b ∷ bytes) = b ∷ copy_bytes n bytes

abbrev pub column_or_empty : Option Hash → List ℕ
column_or_empty none = []
column_or_empty (some h) = h

-- The time zero stands for the zero `time.Time`.
unfoldable pub claim_of : TenantRow → OwnershipClaim
claim_of row = record {
  token_hash = copy_bytes 32 (column_or_empty row.claim_token_hash);
  expires_at = elim row.claim_expires_at [ none ↦ 0 | some at ↦ at ];
}

-- `row.Subdomain.Valid`, and the column parsed
abbrev pub subdomain_of : Option String → Result Subdomain
subdomain_of none = ok no_subdomain
subdomain_of (some s) = wrapped (Subdomain.parse s)

unfoldable pub tenant_of : Context → TenantRow → Result Tenant
tenant_of ctx row = Failure.◌>>=◌ (wrapped (Tenant.parse row.ownership_state)) λ state.
    Failure.◌>>=◌ (subdomain_of row.subdomain) λ subdomain.
      Failure.◌>>=◌ (verify_ownership ctx row.public_id) λ _. ok (record {
        id = row.id;
        public_id = row.public_id;
        name = row.name;
        contract_plan = row.contract_plan;
        ownership_state = state;
        subdomain = subdomain;
        archived = row.archived;
      })

-- the columns of a tenant that has a claim, or none
abbrev pub row_of : Tenant → Option String → Option Hash → Option ℕ → TenantRow
row_of t subdomain token_hash expires_at = record {
  id = t.id;
  public_id = t.public_id;
  name = t.name;
  contract_plan = t.contract_plan;
  ownership_state = Tenant.to_string t.ownership_state;
  subdomain = subdomain;
  claim_token_hash = token_hash;
  claim_expires_at = expires_at;
  archived = t.archived;
}

unfoldable pub create_tenant : Tenant → Exec (Unit {0})
unfolding map_tenant_constraint_error
create_tenant t = do
  _ ←
      map_error map_tenant_constraint_error
        (statement (Sql.insert (row_of t (nullable_subdomain t.subdomain) none none)))
  pure tt

unfoldable pub create_pending_tenant : Tenant → OwnershipClaim → Exec (Unit {0})
unfolding map_tenant_constraint_error
create_pending_tenant t claim =
    if not (is_pending_owner t.ownership_state)
    then fail (wrap (sentinel not_pending_owner))
    else do
      _ ←
          map_error map_tenant_constraint_error
            (statement (Sql.insert (row_of t none (some claim.token_hash) (some claim.expires_at))))
      pure tt

unfoldable pub delete_expired_pending_tenants : ℕ → Exec ℕ
delete_expired_pending_tenants now = map_error wrap (statement (Sql.delete_expired now))

unfoldable pub find_tenant_by_public_id_for_update :
    Context → String → Exec (Tenant × OwnershipClaim)
unfolding tenant_of claim_of
find_tenant_by_public_id_for_update ctx public_id = do
  row ← map_error (or_missing tenant_not_found (λ e. e)) (get (Sql.by_public_id public_id))
  tenant ← lift (tenant_of ctx row)
  pure (tenant, claim_of row)

unfoldable pub mark_tenant_owned : Tenant → Exec (Unit {0})
unfolding map_tenant_constraint_error
mark_tenant_owned t =
    if not (is_owned t.ownership_state) then fail (wrap (sentinel not_pending_owner)) else do
      rows ←
          map_error (λ e. wrap (map_tenant_constraint_error e))
            (statement (Sql.mark_owned t.id (nullable_subdomain t.subdomain)))
      expect_one_row rows not_pending_owner

unfoldable pub update_tenant : Tenant → Exec (Unit {0})
update_tenant t = do
  rows ← map_error wrap (statement (Sql.set_plan_archived t.id t.contract_plan t.archived))
  expect_one_row rows tenant_not_found

unfoldable pub find_tenant : Context → (Db → Option TenantRow) → Exec Tenant
unfolding tenant_of
find_tenant ctx select = do
  row ← map_error (or_missing tenant_not_found (λ e. e)) (get select)
  lift (tenant_of ctx row)

unfoldable pub find_tenant_by_id : Context → String → Exec Tenant
unfolding find_tenant
find_tenant_by_id ctx id = find_tenant ctx (Sql.by_id id)

unfoldable pub find_tenant_by_public_id : Context → String → Exec Tenant
unfolding find_tenant
find_tenant_by_public_id ctx public_id = find_tenant ctx (Sql.by_public_id public_id)

unfoldable pub find_tenant_public_id_by_subdomain : String → Exec String
find_tenant_public_id_by_subdomain subdomain = do
  row ← map_error (or_missing tenant_not_found (λ e. e)) (get (Sql.by_subdomain subdomain))
  pure row.public_id
