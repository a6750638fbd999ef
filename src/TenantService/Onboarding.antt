-- ===== src/TenantService/Onboarding.antt =====
-- StartTenantRegistration, ClaimTenantOwnership and ResolveTenantSubdomain of
-- internal/tenant/application/tenant.go.
use tolo_tenant_management.Prelude.{
  ℕ, ◌+◌, String, Bool, not, ◌||◌, none, some, false, if◌then◌else◌,
}
use tolo_tenant_management.Text.{is_empty}
use tolo_tenant_management.Failure.{
  sentinel, wrap, Result, ok, err, tenant_name_required, contract_plan_required, tenant_id_required,
  subdomain_required, claim_token_required, claim_rejected, subject_missing,
}
use tolo_tenant_management.Context.{Context, subject_from_context}
use tolo_tenant_management.Domain.DisplayName
use tolo_tenant_management.Domain.DisplayName.{DisplayName}
use tolo_tenant_management.Domain.Subdomain
use tolo_tenant_management.Domain.Subdomain.{Subdomain, no_subdomain}
use tolo_tenant_management.Domain.Tenant
use tolo_tenant_management.Domain.Tenant.{
  Tenant, OwnershipClaim, Hash, is_pending_owner, expired, claim_ownership,
}
use tolo_tenant_management.Token.{Platform, new_uuid, new_public_id, new_token, matches}
use tolo_tenant_management.Exec.{Exec, pure, fail, lift, map_error, ◌>>=◌, ◌>>◌}
use tolo_tenant_management.Transaction.{run_in_transaction}
use tolo_tenant_management.Repository.Tenants.{
  create_pending_tenant, delete_expired_pending_tenants, find_tenant_by_public_id_for_update,
  mark_tenant_owned, find_tenant_public_id_by_subdomain,
}
use tolo_tenant_management.Repository.Memberships.{add_owner}

pub record TenantRegistration : Type 0 where
  pub tenant : Tenant
  pub claim_token : String
  pub expires_at : ℕ

pub record StartTenantRegistrationInput : Type 0 where
  pub name : String
  pub contract_plan : String

pub record ClaimTenantOwnershipInput : Type 0 where
  pub tenant_public_id : String
  pub claim_token : String
  pub subdomain : String
  pub display_name : String

-- the tenant of a new registration
abbrev pub pending_tenant : StartTenantRegistrationInput → String → String → Tenant
pending_tenant input id public_id = record {
  id = id;
  public_id = public_id;
  name = input.name;
  contract_plan = input.contract_plan;
  ownership_state = Tenant.pending_owner;
  subdomain = no_subdomain;
  archived = false;
}

-- the registration that is answered, once its row is stored
unfoldable pub store_registration : Tenant → String × Hash → ℕ → Exec TenantRegistration
store_registration tenant (token, token_hash) expires_at = do
  create_pending_tenant tenant (record { token_hash = token_hash; expires_at = expires_at })
  pure (record { tenant = tenant; claim_token = token; expires_at = expires_at })

-- `ttl` is the service's `ownershipClaimTTL`.
unfoldable pub start_tenant_registration :
    Platform → ℕ → StartTenantRegistrationInput → Exec TenantRegistration
unfolding store_registration
start_tenant_registration p ttl input =
    if is_empty input.name
    then fail (sentinel tenant_name_required)
    else if is_empty input.contract_plan
    then fail (sentinel contract_plan_required)
    else do
      _ ← map_error wrap (delete_expired_pending_tenants p.now)
      tenant_id ← lift (new_uuid p)
      public_id ← lift (new_public_id p)
      token ← lift (new_token p)
      store_registration (pending_tenant input tenant_id public_id) token (p.now + ttl)

-- a claim that a check speaks against: the verdict does not tell which
unfoldable pub rejects : Platform → String → Tenant → OwnershipClaim → Bool
unfolding matches expired
rejects p token tenant claim =
    not (is_pending_owner tenant.ownership_state)
    || expired claim p.now
    || not (matches p claim.token_hash token)

-- an accepted claim: the owner's membership, and the tenant's transition
unfoldable pub take_ownership : Tenant → Subdomain → DisplayName → String → Context → Exec Tenant
take_ownership tenant subdomain name subject ctx = do
  owned ← lift (claim_ownership tenant subdomain)
  map_error wrap (add_owner ctx tenant.id subject name)
  mark_tenant_owned owned
  pure owned

-- the work of the transaction
unfoldable pub confirm_claim :
    Platform → ClaimTenantOwnershipInput → Subdomain → DisplayName → String → Context → Exec Tenant
unfolding rejects take_ownership
confirm_claim p input subdomain name subject ctx = do
  (tenant, claim) ← find_tenant_by_public_id_for_update ctx input.tenant_public_id
  if rejects p input.claim_token tenant claim
      then fail (sentinel claim_rejected)
      else take_ownership tenant subdomain name subject ctx

abbrev pub required_subject : Context → Result String
required_subject ctx = elim (subject_from_context ctx) [
  | none ↦ err (sentinel subject_missing)
  | some subject ↦ ok subject
]

unfoldable pub claim_tenant_ownership : Platform → Context → ClaimTenantOwnershipInput → Exec Tenant
unfolding confirm_claim
claim_tenant_ownership p ctx input =
    if is_empty input.tenant_public_id
    then fail (sentinel tenant_id_required)
    else if is_empty input.claim_token
    then fail (sentinel claim_token_required)
    else do
      subdomain ← lift (Subdomain.parse input.subdomain)
      name ← lift (DisplayName.parse input.display_name)
      subject ← lift (required_subject ctx)
      run_in_transaction ctx (confirm_claim p input subdomain name subject)

unfoldable pub resolve_tenant_subdomain : String → Exec String
resolve_tenant_subdomain subdomain =
    if is_empty subdomain
    then fail (sentinel subdomain_required)
    else find_tenant_public_id_by_subdomain subdomain
