-- ===== src/Invariant/TenantCalls.antt =====
-- The use cases of TenantService keep the tables sound, whatever fails on the way.
use tolo_tenant_management.Prelude.{ℕ, String, Bool, Option, none, some, ◌≡◌, arith}
use tolo_tenant_management.Failure.{Result, ok, wrap}
use tolo_tenant_management.Context.{Context}
use tolo_tenant_management.Domain.Role.{Role}
use tolo_tenant_management.Domain.Event.{Event, EventStatus}
use tolo_tenant_management.Domain.DisplayName.{DisplayName}
use tolo_tenant_management.Domain.Subdomain.{Subdomain}
use tolo_tenant_management.Domain.Tenant.{Tenant, claim_ownership, Hash}
use tolo_tenant_management.Store.{Db}
use tolo_tenant_management.Token.{Platform}
use tolo_tenant_management.Exec.{pure, map_error, ◌>>◌}
use tolo_tenant_management.Repository.Memberships.{add_owner}
use tolo_tenant_management.Repository.Tenants.{mark_tenant_owned}
use tolo_tenant_management.Exec.Triple.{
  Keeps, Keeps-fail, Triple-bind, Triple-map_error, Triple-lift, Triple-pure, Triple-conseq,
}
use tolo_tenant_management.Transaction.Triple.{Keeps-run_in_transaction}
use tolo_tenant_management.TenantService.Onboarding as Onboarding
use tolo_tenant_management.TenantService.Onboarding.{
  ClaimTenantOwnershipInput, StartTenantRegistrationInput,
}
use tolo_tenant_management.TenantService.Administration as Administration
use tolo_tenant_management.TenantService.Events as Events
use tolo_tenant_management.Invariant.{IsSound}
use tolo_tenant_management.Invariant.Reads.{read_rules}
use tolo_tenant_management.Invariant.Writes.{
  Keeps-create_pending_tenant, Keeps-delete_expired, Keeps-update_tenant, Keeps-create_event,
  Keeps-update_event, Keeps-grant_event_role,
}
use tolo_tenant_management.Invariant.Owners.{Owned, Triple-add_owner, Triple-mark_tenant_owned}

Keeps-store_registration :
    (tenant : Tenant) (token : String × Hash) (expires_at : ℕ)
    → Keeps IsSound (Onboarding.store_registration tenant token expires_at)
unfolding Onboarding.store_registration
Keeps-store_registration tenant (token, token_hash) expires_at =
    search (read_rules, Keeps-create_pending_tenant)

pub Keeps-start_tenant_registration :
    (p : Platform) (ttl : ℕ) (input : StartTenantRegistrationInput)
    → Keeps IsSound (Onboarding.start_tenant_registration p ttl input)
unfolding Onboarding.start_tenant_registration
Keeps-start_tenant_registration p ttl input =
    search (read_rules, Keeps-store_registration, Keeps-delete_expired) depth 14

-- The claimed tenant has the ID of the pending one.
owned_id :
    (t : Tenant) (subdomain : Subdomain) (u : Tenant)
    → claim_ownership t subdomain ≡ ok u
    → u.id ≡ t.id
unfolding claim_ownership
owned_id t subdomain u h = ground arith

-- the owner's membership, and then the tenant's transition
Keeps-owner_then_owned :
    (tenant : Tenant) (name : DisplayName) (subject : String) (ctx : Context) (u : Tenant)
    → u.id ≡ tenant.id
    → Keeps IsSound
        (map_error wrap (add_owner ctx tenant.id subject name) >> (mark_tenant_owned u >> pure u))
Keeps-owner_then_owned tenant name subject ctx u same =
    Triple-bind {Q = λ _. Owned tenant.id} _ _
      (Triple-map_error {R = λ _. IsSound} _ _ (Triple-add_owner ctx tenant.id subject name)
        (λ e d h. h))
      (λ _.
        Triple-bind {Q = λ _. IsSound} _ _
          (Triple-conseq (mark_tenant_owned u) (λ d h. rw same h) (λ a d h. h) (λ e d h. h)
            (Triple-mark_tenant_owned u))
          (λ _. Triple-pure u (λ d h. h)))

Keeps-take_ownership :
    (tenant : Tenant) (subdomain : Subdomain) (name : DisplayName) (subject : String)
    (ctx : Context)
    → Keeps IsSound (Onboarding.take_ownership tenant subdomain name subject ctx)
unfolding Onboarding.take_ownership
Keeps-take_ownership tenant subdomain name subject ctx =
    Triple-bind {Q = λ u d. IsSound d × (u.id ≡ tenant.id)} _ _
      (Triple-lift _ (λ u e d h. (h, owned_id tenant subdomain u e)) (λ x e d h. h))
      (λ u. record { at = λ w h. (Keeps-owner_then_owned tenant name subject ctx u h.1).at w h.0 })

Keeps-confirm_claim :
    (p : Platform) (input : ClaimTenantOwnershipInput) (subdomain : Subdomain) (name : DisplayName)
    (subject : String) (ctx : Context)
    → Keeps IsSound (Onboarding.confirm_claim p input subdomain name subject ctx)
unfolding Onboarding.confirm_claim
Keeps-confirm_claim p input subdomain name subject ctx = search (read_rules, Keeps-take_ownership)

pub Keeps-claim_tenant_ownership :
    (p : Platform) (ctx : Context) (input : ClaimTenantOwnershipInput)
    → Keeps IsSound (Onboarding.claim_tenant_ownership p ctx input)
unfolding Onboarding.claim_tenant_ownership
Keeps-claim_tenant_ownership p ctx input =
    search (read_rules, Keeps-run_in_transaction, Keeps-confirm_claim) depth 14

Keeps-write_permitted :
    (mutate : Tenant → Result Tenant) (tenant : Tenant) (permitted : Bool)
    → Keeps IsSound (Administration.write_permitted mutate tenant permitted)
unfolding Administration.write_permitted
Keeps-write_permitted mutate tenant permitted = search (read_rules, Keeps-update_tenant)

Keeps-administer :
    (tenant_public_id : String) (mutate : Tenant → Result Tenant) (ctx : Context)
    → Keeps IsSound (Administration.administer tenant_public_id mutate ctx)
unfolding Administration.administer
Keeps-administer tenant_public_id mutate ctx = search (read_rules, Keeps-write_permitted) depth 14

pub Keeps-administer_tenant :
    (ctx : Context) (tenant_public_id : String) (mutate : Tenant → Result Tenant)
    → Keeps IsSound (Administration.administer_tenant ctx tenant_public_id mutate)
unfolding Administration.administer_tenant
Keeps-administer_tenant ctx tenant_public_id mutate =
    search (read_rules, Keeps-run_in_transaction, Keeps-administer)

pub Keeps-change_tenant_contract :
    (ctx : Context) (tenant_public_id plan : String)
    → Keeps IsSound (Administration.change_tenant_contract ctx tenant_public_id plan)
unfolding Administration.change_tenant_contract
Keeps-change_tenant_contract ctx tenant_public_id plan =
    search (read_rules, Keeps-administer_tenant)

pub Keeps-archive_tenant :
    (ctx : Context) (tenant_public_id : String)
    → Keeps IsSound (Administration.archive_tenant ctx tenant_public_id)
unfolding Administration.archive_tenant
Keeps-archive_tenant ctx tenant_public_id = Keeps-administer_tenant ctx tenant_public_id _

Keeps-create_as :
    (event : Event) (subject : String) (ctx : Context) (role : Option Role)
    → Keeps IsSound (Events.create_as event subject ctx role)
unfolding Events.create_as
Keeps-create_as event subject ctx none = Keeps-fail _
Keeps-create_as event subject ctx (some role) =
    search (read_rules, Keeps-create_event, Keeps-grant_event_role)

Keeps-create_for :
    (event : Event) (subject : String) (ctx : Context)
    → Keeps IsSound (Events.create_for event subject ctx)
unfolding Events.create_for
Keeps-create_for event subject ctx = search (read_rules, Keeps-create_as)

Keeps-create_in :
    (p : Platform) (ctx : Context) (name : String) (tenant : Tenant)
    → Keeps IsSound (Events.create_in p ctx name tenant)
unfolding Events.create_in
Keeps-create_in p ctx name tenant =
    search (read_rules, Keeps-run_in_transaction, Keeps-create_for) depth 14

pub Keeps-create_event_in_tenant :
    (p : Platform) (ctx : Context) (tenant_public_id name : String)
    → Keeps IsSound (Events.create_event_in_tenant p ctx tenant_public_id name)
unfolding Events.create_event_in_tenant
Keeps-create_event_in_tenant p ctx tenant_public_id name = search (read_rules, Keeps-create_in)

pub Keeps-transition_event_status :
    (ctx : Context) (event_public_id : String) (to : EventStatus)
    → Keeps IsSound (Events.transition_event_status ctx event_public_id to)
unfolding Events.transition_event_status
Keeps-transition_event_status ctx event_public_id to =
    search (read_rules, Keeps-update_event) depth 14

module _ {P : Db → Type 0} where
  pub Keeps-resolve_tenant_subdomain :
      (subdomain : String) → Keeps P (Onboarding.resolve_tenant_subdomain subdomain)
  unfolding Onboarding.resolve_tenant_subdomain
  Keeps-resolve_tenant_subdomain subdomain = search read_rules

  pub Keeps-get_event :
      (ctx : Context) (event_public_id : String) → Keeps P (Events.get_event ctx event_public_id)
  unfolding Events.get_event
  Keeps-get_event ctx event_public_id = search read_rules

  pub Keeps-list_events_of :
      (ctx : Context) (tenant_public_id : String) (include_archived : Bool)
      → Keeps P (Events.list_events ctx tenant_public_id include_archived)
  unfolding Events.list_events
  Keeps-list_events_of ctx tenant_public_id include_archived = search read_rules
