-- ===== src/Guarantees/Registration.antt =====
-- StartTenantRegistration of internal/tenant/application/tenant.go: what a registration that
-- succeeds leaves, and which claims it makes possible.
use tolo_tenant_management.Prelude.{
  All-rejected, ℕ, ◌+◌, ◌<◌, ◌≡◌, refl, sym, ap, ◌∙◌, String, true, false, none, some, arith, List,
  [], ◌∷◌, All, length, str_eq_refl, zero, suc,
}
use tolo_tenant_management.Failure
use tolo_tenant_management.Failure.{Result, ok, err, wrapped}
use tolo_tenant_management.Text.{is_empty}
use tolo_tenant_management.Domain.Tenant
use tolo_tenant_management.Domain.Tenant.{Tenant, Hash, expired}
use tolo_tenant_management.Store.{TenantRow, Db}
use tolo_tenant_management.Store.Checked.{checked-Left}
use tolo_tenant_management.Store.Tenants as Sql
use tolo_tenant_management.Store.Tenants.{by_public_id, expired_pending, tenant_checks}
use tolo_tenant_management.Store.Invitations.{same_hash}
use tolo_tenant_management.Token
use tolo_tenant_management.Token.{Platform, new_token, matches, hash_of, base64}
use tolo_tenant_management.Exec.{World, Exec, lift, ◌>>=◌}
use tolo_tenant_management.Exec.Triple.{
  Triple, Triple-bind, Triple-lift, Triple-if, Triple-fail, Triple-map_error, Triple-conseq,
  Triple-pure, Triple-statement,
}
use tolo_tenant_management.Repository.Tenants.{
  claim_of, copy_bytes, create_pending_tenant, delete_expired_pending_tenants, row_of,
}
use tolo_tenant_management.TenantService.Onboarding.{
  TenantRegistration, StartTenantRegistrationInput, start_tenant_registration, store_registration,
  pending_tenant, rejects,
}
use tolo_tenant_management.Guarantees.{Any, led}

-- no claim has expired
abbrev pub Swept : ℕ → List TenantRow → Type 0
Swept now ts = All (λ t. expired_pending now t ≡ false) ts

-- what a registration leaves, and the claims that it makes possible
pub record Registered (p : Platform) (reg : TenantRegistration) (after : Db) : Type 0 where
  pub row : TenantRow
  pub found : by_public_id reg.tenant.public_id after ≡ some row
  pub pending : row.ownership_state ≡ "pending_owner"
  pub unowned : row.subdomain ≡ none
  pub swept : Swept p.now after.tenants
  pub hashed : (claim_of row).token_hash ≡ p.sha256 reg.claim_token
  pub deadline : (claim_of row).expires_at ≡ reg.expires_at
  pub claimable :
      (later : Platform)
      → later.sha256 ≡ p.sha256
      → later.now < reg.expires_at
      → rejects later reg.claim_token reg.tenant (claim_of row) ≡ false

copy_bytes-length : (n : ℕ) (h : Hash) → length h ≡ n → copy_bytes n h ≡ h
copy_bytes-length zero [] e = refl
copy_bytes-length zero (b ∷ h) e = ground arith
copy_bytes-length (suc n) [] e = ground arith
copy_bytes-length (suc n) (b ∷ h) e = ap (λ r. b ∷ r) (copy_bytes-length n h (omega (arith, e)))

same_hash_refl : (h : Hash) → same_hash h h ≡ true
same_hash_refl [] = refl
same_hash_refl (b ∷ h) = ground (arith, same_hash_refl h)

token_hash_of :
    (p : Platform) (r : Result (List ℕ)) (token : String) (h : Hash)
    → Failure.◌>>=◌ {B = String × Hash} (wrapped r) (λ raw. ok (base64 raw, p.sha256 (base64 raw)))
      ≡ ok (token, h)
    → h ≡ p.sha256 token
token_hash_of p (ok raw) token h e =
    let same : base64 raw ≡ token = ground (arith, e) in
    let made : p.sha256 (base64 raw) ≡ h = ground (arith, e) in sym made ∙ ap p.sha256 same
token_hash_of p (err x) token h e = ground (arith, e)

module _ (p : Platform) (digest : (s : String) → length (p.sha256 s) ≡ 32) (ttl : ℕ)
    (positive : 0 < ttl) where
  module _ (t : Tenant) (state : t.ownership_state ≡ Tenant.pending_owner) (token : String) where
    abbrev new_row : Hash → TenantRow
    new_row h = row_of t none (some h) (some (p.now + ttl))

    abbrev registration : TenantRegistration
    registration = record { tenant = t; claim_token = token; expires_at = p.now + ttl }

    stored :
        (rest : List TenantRow)
        → Swept p.now rest
        → (x : Db) → x.tenants ≡ new_row (p.sha256 token) ∷ rest
        → Registered p registration x
    unfolding claim_of by_public_id rejects matches expired hash_of Tenant.to_string
    stored rest swept x e =
        let whole : copy_bytes 32 (p.sha256 token) ≡ p.sha256 token =
          copy_bytes-length 32 (p.sha256 token) (digest token) in
        record {
          row = new_row (p.sha256 token);
          found = rw (e, str_eq_refl t.public_id) refl;
          pending = rw state refl;
          unowned = refl;
          swept = rw e (ground (arith, positive), swept);
          hashed = whole;
          deadline = refl;
          claimable = λ later same soon.
              rw (state, whole, same, same_hash_refl (p.sha256 token)) (ground (arith, soon));
        }

  module _ (input : StartTenantRegistrationInput) where
    Triple-sweep :
        Triple (λ _. Unit) (delete_expired_pending_tenants p.now) (λ _ x. Swept p.now x.tenants) Any
    unfolding delete_expired_pending_tenants Sql.delete_expired
    Triple-sweep =
        Triple-map_error {R = Any} _ _
          (Triple-statement (Sql.delete_expired p.now)
            (λ x h. All-rejected (expired_pending p.now) x.tenants) (λ e x h. tt) (λ e x h. tt))
          (λ e x h. tt)

    Triple-store :
        (id public_id token : String)
        → Triple
            (λ x. Swept p.now x.tenants)
            (store_registration
              (pending_tenant input id public_id)
              (token, p.sha256 token)
              (p.now + ttl))
            (λ reg x. Registered p reg x)
            Any
    unfolding store_registration create_pending_tenant Sql.insert
    Triple-store id public_id token =
        let t : Tenant = pending_tenant input id public_id in
        let reg : TenantRegistration = registration t refl token in
        let row : TenantRow = new_row t refl token (p.sha256 token) in
        Triple-bind {Q = λ _ x. Registered p reg x} _ _
          (Triple-bind {Q = λ _ x. Registered p reg x} _ _
            (Triple-map_error {R = Any} _ _
              (Triple-statement _
                (λ x swept.
                  checked-Left _ _ (tenant_checks row x.tenants) 1 _ x (λ e. tt)
                    (λ passed. stored t refl token x.tenants swept _ refl))
                (λ e x h. tt) (λ e x h. tt))
              (λ e x h. tt))
            (λ _. Triple-pure tt (λ x h. h)))
          (λ _. Triple-pure reg (λ x h. h))

    Triple-answer :
        (id public_id : String) (k : String × Hash)
        → k.1 ≡ p.sha256 k.0
        → Triple
            (λ x. Swept p.now x.tenants)
            (store_registration (pending_tenant input id public_id) k (p.now + ttl))
            (λ reg x. Registered p reg x)
            Any
    Triple-answer id public_id (token, h) same = rw same (Triple-store id public_id token)

    lifted :
        {A B : Type 0} {S : B → Db → Type 0} (r : Result A) (f : A → Exec B)
        → ((a : A) → r ≡ ok a → Triple (λ x. Swept p.now x.tenants) (f a) S Any)
        → Triple (λ x. Swept p.now x.tenants) (lift r >>= f) S Any
    lifted r f k =
        Triple-bind {Q = λ a x. Swept p.now x.tenants × (r ≡ ok a)} _ _
          (Triple-lift r (λ a e x h. (h, e)) (λ x e y h. tt))
          (λ a. record { at = λ w h. (k a h.1).at w h.0 })

    Triple-register :
        Triple (λ _. Unit) (start_tenant_registration p ttl input) (λ reg x. Registered p reg x) Any
    unfolding start_tenant_registration new_token hash_of
    Triple-register =
        Triple-if (is_empty input.name) _ _
          (Triple-fail (Failure.sentinel Failure.tenant_name_required) (λ x h. tt))
          (Triple-if (is_empty input.contract_plan) _ _
            (Triple-fail (Failure.sentinel Failure.contract_plan_required) (λ x h. tt))
            (Triple-bind {Q = λ _ x. Swept p.now x.tenants} _ _
              (Triple-map_error {R = Any} Failure.wrap _ Triple-sweep (λ e x h. tt))
              (λ _. lifted (Token.new_uuid p) _ (λ id known.
                lifted (Token.new_public_id p) _ (λ public_id drawn.
                  lifted (new_token p) _ (λ k made.
                    Triple-answer id public_id k (token_hash_of p p.random32 k.0 k.1 made)))))))

-- A registration that succeeds, with SHA-256 digests of thirty-two bytes and a lifetime of claims that
-- is not zero, leaves the tenant stored under its public ID, pending and without a subdomain, with the
-- hash of the token that is answered and the deadline that is answered; no tenant whose claim has
-- expired is left, and until the deadline a claim with that token is not rejected.
pub registration_is_claimable :
    (p : Platform) (ttl : ℕ) (input : StartTenantRegistrationInput) (w : World)
    (reg : TenantRegistration) (w' : World)
    → ((s : String) → length (p.sha256 s) ≡ 32)
    → 0 < ttl
    → start_tenant_registration p ttl input w ≡ (ok reg, w')
    → Registered p reg w'.db
registration_is_claimable p ttl input w reg w' digest positive h =
    led {Q = λ r x. Registered p r x} _
      (Triple-conseq _ (λ x k. tt) (λ r x k. k) (λ e x k. k)
        (Triple-register p digest ttl positive input))
      h
