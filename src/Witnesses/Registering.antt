-- ===== src/Witnesses/Registering.antt =====
-- The theorem on registrations, beside the sample tables' pending tenant.
use tolo_tenant_management.Prelude.{◌≡◌, refl, String, arith, length}
use tolo_tenant_management.Failure.{Result, ok}
use tolo_tenant_management.Exec
use tolo_tenant_management.Exec.{World}
use tolo_tenant_management.Token
use tolo_tenant_management.Domain.Tenant
use tolo_tenant_management.Store.Tenants as StoreTenants
use tolo_tenant_management.Repository.Tenants as RepositoryTenants
use tolo_tenant_management.TenantService.Onboarding
use tolo_tenant_management.TenantService.Onboarding.{
  TenantRegistration, StartTenantRegistrationInput, pending_tenant,
}
use tolo_tenant_management.Sample.{platform, digest, world}
use tolo_tenant_management.Guarantees.Registration.{Registered, registration_is_claimable}

abbrev input : StartTenantRegistrationInput
input = record { name = "Gamma"; contract_plan = "basic" }

abbrev gamma : TenantRegistration
gamma = record {
  tenant = pending_tenant input "u-new" "0000000000000000";
  claim_token = "BwAAAAAAAAAAAAAAAAAAAAAAAAAAAAAAAAAAAAAAAAA";
  expires_at = 150;
}

abbrev registration_run : Result TenantRegistration × World
registration_run = Onboarding.start_tenant_registration platform 50 input world

registration_run-ok : registration_run ≡ (ok gamma, registration_run.1)
unfolding Onboarding.start_tenant_registration Onboarding.store_registration
    RepositoryTenants.delete_expired_pending_tenants RepositoryTenants.create_pending_tenant
    StoreTenants.delete_expired StoreTenants.insert Tenant.to_string Token.new_uuid
    Token.new_public_id Token.new_token Token.hex Token.base64 Token.hash_of Exec.handle
    Exec.statement Exec.lift Exec.pure Exec.fail
registration_run-ok = refl

length-digest : (s : String) → length (digest s) ≡ 32
length-digest String.[] = refl
length-digest (String.◌∷◌ c s) = refl

registration_is_claimable_example : Registered platform gamma registration_run.1.db
registration_is_claimable_example =
    registration_is_claimable platform 50 input world gamma registration_run.1 length-digest
      (omega arith) registration_run-ok
