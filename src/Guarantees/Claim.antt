-- ===== src/Guarantees/Claim.antt =====
-- ClaimTenantOwnership of internal/tenant/application/tenant.go: what a claim that succeeds was
-- verified against, and what it leaves.
use tolo_tenant_management.Prelude.{
  ◌≡◌, refl, sym, ap, ◌∙◌, String, true, false, Option, some, inl, inr, arith, ltb, Option-cases,
}
use tolo_tenant_management.Failure.{ok}
use tolo_tenant_management.Context.{Context, subject_from_context}
use tolo_tenant_management.Text.{is_empty}
use tolo_tenant_management.Domain.Role
use tolo_tenant_management.Domain.Subdomain
use tolo_tenant_management.Domain.Subdomain.{Subdomain}
use tolo_tenant_management.Domain.DisplayName.{DisplayName}
use tolo_tenant_management.Domain.Tenant
use tolo_tenant_management.Domain.Tenant.{
  Tenant, OwnershipClaim, OwnershipState, is_pending_owner, claim_ownership, expired,
}
use tolo_tenant_management.Store.{TenantRow, Db}
use tolo_tenant_management.Store.Tenants as TenantSql
use tolo_tenant_management.Store.Tenants.{by_public_id}
use tolo_tenant_management.Store.Memberships.{role_of}
use tolo_tenant_management.Store.Invitations.{same_hash}
use tolo_tenant_management.Token.{Platform}
use tolo_tenant_management.Exec.{World, statement}
use tolo_tenant_management.Exec.Triple.{
  Triple, Keeps, Triple-bind, Triple-lift, Triple-map_error, Triple-conseq, Triple-pure,
  Keeps-statement, keeps_rules,
}
use tolo_tenant_management.Transaction.Atomic.{inside}
use tolo_tenant_management.Repository.Tenants.{claim_of, mark_tenant_owned, tenant_of}
use tolo_tenant_management.Repository.Memberships as Memberships
use tolo_tenant_management.TenantService.Onboarding.{
  ClaimTenantOwnershipInput, claim_tenant_ownership, confirm_claim, take_ownership, rejects,
  required_subject,
}
use tolo_tenant_management.Invariant.Tenants.{update-elim}
use tolo_tenant_management.Guarantees.{
  Any, Leads, led, Leads-next, Leads-unless, Leads-run, Reads-lift,
}
use tolo_tenant_management.Guarantees.Joined.{Triple-add_tenant_member}
use tolo_tenant_management.Guarantees.Lookup.{Reads-find_for_update, tenant_of-eq_ok}

-- the user is an owner of the tenant
abbrev IsOwner : String → String → Db → Type 0
IsOwner tenant_id user_id x = role_of tenant_id user_id x ≡ some "owner"

module _ (tenant_id user_id : String) where
  Triple-add_owner :
      (ctx : Context) (name : DisplayName)
      → Triple
          (λ _. Unit)
          (Memberships.add_owner ctx tenant_id user_id name)
          (λ _. IsOwner tenant_id user_id)
          Any
  unfolding Memberships.add_owner Role.to_string
  Triple-add_owner ctx name =
      Triple-bind {Q = λ _. IsOwner tenant_id user_id} _ _
        (Triple-add_tenant_member tenant_id user_id Role.owner ctx name)
        (λ _. Triple-pure tt (λ x h. h))

  Keeps-mark_owned :
      (id : String) (subdomain : Option String)
      → Keeps (IsOwner tenant_id user_id) (statement (TenantSql.mark_owned id subdomain))
  unfolding TenantSql.mark_owned role_of
  Keeps-mark_owned id subdomain = Keeps-statement (TenantSql.mark_owned id subdomain) (λ x h.
      update-elim (IsOwner tenant_id user_id) (TenantSql.claimable id)
        (TenantSql.with_owner subdomain) x h (λ r p. h))

  Keeps-mark_tenant_owned : (t : Tenant) → Keeps (IsOwner tenant_id user_id) (mark_tenant_owned t)
  unfolding mark_tenant_owned
  Keeps-mark_tenant_owned t = search (keeps_rules, Keeps-mark_owned)

owned_state :
    (t : Tenant) (subdomain : Subdomain) (u : Tenant)
    → claim_ownership t subdomain ≡ ok u
    → (u.id ≡ t.id) × (u.ownership_state ≡ Tenant.owned) × (u.subdomain ≡ subdomain)
unfolding claim_ownership
owned_state t subdomain u h = (ground (arith, h), ground (arith, h), ground (arith, h))

-- what a successful claim leaves
abbrev Taken : Tenant → Subdomain → String → Tenant → Db → Type 0
Taken t subdomain subject u x =
    IsOwner t.id subject x
    × (u.id ≡ t.id)
    × (u.ownership_state ≡ Tenant.owned)
    × (u.subdomain ≡ subdomain)

module _ (t : Tenant) (subdomain : Subdomain) (name : DisplayName) (subject : String) where
  Triple-take_ownership :
      (ctx : Context)
      → Triple
          (λ _. Unit)
          (take_ownership t subdomain name subject ctx)
          (Taken t subdomain subject)
          Any
  unfolding take_ownership
  Triple-take_ownership ctx =
      Triple-bind {Q = λ u _. claim_ownership t subdomain ≡ ok u} _ _
        (Triple-lift _ (λ u e x h. e) (λ e k x h. tt))
        (λ u. record {
          at = λ w e.
              (Triple-bind {Q = λ _. IsOwner t.id subject} {S = Taken t subdomain subject} _ _
                  (Triple-map_error {R = Any} _ _ (Triple-add_owner t.id subject ctx name)
                    (λ e x h. tt))
                  (λ _.
                    Triple-bind {Q = λ _. IsOwner t.id subject} _ _
                      (Triple-conseq _ (λ x h. h) (λ a x h. h) (λ e x h. tt)
                        (Keeps-mark_tenant_owned t.id subject u))
                      (λ _.
                        Triple-pure u
                          (λ x h. let (i, o, v) = owned_state t subdomain u e in (h, i, o, v))))).at
                w tt;
        })

-- what a claim that succeeded was verified against, and what it has left
pub record Claimed (p : Platform) (ctx : Context) (input : ClaimTenantOwnershipInput) (before : Db)
    (t : Tenant) (after : Db) : Type 0 where
  pub row : TenantRow
  pub found : by_public_id input.tenant_public_id before ≡ some row
  pub pending : row.ownership_state ≡ "pending_owner"
  pub unexpired : ltb p.now (claim_of row).expires_at ≡ true
  pub matching : same_hash (claim_of row).token_hash (p.sha256 input.claim_token) ≡ true
  pub subject : String
  pub authenticated : subject_from_context ctx ≡ some subject
  pub subdomain : Subdomain.parse input.subdomain ≡ ok t.subdomain
  pub same_id : t.id ≡ row.id
  pub owned : t.ownership_state ≡ Tenant.owned
  pub owner : role_of row.id subject after ≡ some "owner"

pending_name :
    (s : OwnershipState) → is_pending_owner s ≡ true → Tenant.to_string s ≡ "pending_owner"
unfolding Tenant.to_string
pending_name Tenant.pending_owner h = refl
pending_name Tenant.unspecified h = ground arith
pending_name Tenant.owned h = ground arith
pending_name (Tenant.other n) h = ground arith

-- A claim that is not rejected is pending, open and proved by its token.
accepted :
    (p : Platform) (token : String) (t : Tenant) (claim : OwnershipClaim)
    → rejects p token t claim ≡ false
    → (is_pending_owner t.ownership_state ≡ true)
      × (ltb p.now claim.expires_at ≡ true)
      × (same_hash claim.token_hash (p.sha256 token) ≡ true)
unfolding rejects
accepted p token t claim h = (ground (arith, h), ground (arith, h), ground (arith, h))

pub subject_found :
    (ctx : Context) (subject : String)
    → required_subject ctx ≡ ok subject
    → subject_from_context ctx ≡ some subject
subject_found ctx subject h = elim (Option-cases (subject_from_context ctx)) [
  | inl e ↦ ground (arith, h)
  | inr (s, e) ↦ ground (arith, h, e)
]

module _ (p : Platform) (input : ClaimTenantOwnershipInput) (subdomain : Subdomain)
    (name : DisplayName) (subject : String) (d : Db) where
  -- what the transaction's work has verified and done
  abbrev Confirmed : Tenant → Db → Type 0
  Confirmed t x =
      (row : TenantRow) × (by_public_id input.tenant_public_id d ≡ some row)
      × (row.ownership_state ≡ "pending_owner")
      × (ltb p.now (claim_of row).expires_at ≡ true)
      × (same_hash (claim_of row).token_hash (p.sha256 input.claim_token) ≡ true)
      × (t.id ≡ row.id)
      × (t.ownership_state ≡ Tenant.owned)
      × (t.subdomain ≡ subdomain)
      × (role_of row.id subject x ≡ some "owner")

  confirmed :
      (ctx : Context) (t : Tenant) (claim : OwnershipClaim) (row : TenantRow)
      → by_public_id input.tenant_public_id d ≡ some row
      → tenant_of ctx row ≡ ok t
      → claim ≡ claim_of row
      → rejects p input.claim_token t claim ≡ false
      → (u : Tenant) (x : Db) → Taken t subdomain subject u x
      → Confirmed u x
  confirmed ctx t claim row found made same let_in u x (owner, same_id, state, named) =
      let (row_id, _, row_state) = tenant_of-eq_ok row t ctx made in
      let (pending, unexpired, matching) = accepted p input.claim_token t claim let_in in
      (
        row,
        found,
        sym row_state ∙ pending_name t.ownership_state pending,
        rw same at unexpired,
        rw same at matching,
        same_id ∙ row_id,
        state,
        named,
        rw row_id at owner,
      )

  Leads-confirm_claim :
      (ctx : Context) → Leads d (confirm_claim p input subdomain name subject ctx) Confirmed
  unfolding confirm_claim
  Leads-confirm_claim ctx =
      Leads-next _ _ (Reads-find_for_update ctx input.tenant_public_id)
        (λ c (row, found, made, same).
          Leads-unless (rejects p input.claim_token c.0 c.1) _ _ (λ let_in.
            Triple-conseq _ (λ x h. tt) (confirmed ctx c.0 c.1 row found made same let_in)
              (λ e x h. tt) (Triple-take_ownership c.0 subdomain name subject ctx)))

  claimed :
      (ctx : Context)
      → Subdomain.parse input.subdomain ≡ ok subdomain
      → subject_from_context ctx ≡ some subject
      → (t : Tenant) (x : Db) → Confirmed t x
      → Claimed p ctx input d t x
  claimed ctx parsed who t x (row, found, pending, unexpired, matching, same, state, named, owner) =
      record {
        row = row;
        found = found;
        pending = pending;
        unexpired = unexpired;
        matching = matching;
        subject = subject;
        authenticated = who;
        subdomain = parsed ∙ ap ok (sym named);
        same_id = same;
        owned = state;
        owner = owner;
      }

-- A claim that returns a tenant was made by an authenticated subject for a stored tenant that was
-- pending, before the claim's expiry, with a token whose SHA-256 is the stored one, for a valid
-- subdomain; the tenant it returns is owned under that subdomain, and the tables it leaves have the
-- subject as an owner of it.
pub claim_is_verified :
    (p : Platform) (ctx : Context) (input : ClaimTenantOwnershipInput) (w : World) (t : Tenant)
    (w' : World)
    → claim_tenant_ownership p ctx input w ≡ (ok t, w')
    → Claimed p ctx input w.db t w'.db
unfolding claim_tenant_ownership
claim_is_verified p ctx input w t w' h = led {Q = λ u x. Claimed p ctx input w.db u x} _ claim h
  where
    claim : Leads w.db (claim_tenant_ownership p ctx input) (λ u x. Claimed p ctx input w.db u x)
    claim = Leads-unless (is_empty input.tenant_public_id) _ _ (λ _.
        Leads-unless (is_empty input.claim_token) _ _ (λ _.
          Leads-next _ _ (Reads-lift _) (λ subdomain parsed.
            Leads-next _ _ (Reads-lift _) (λ name _. Leads-next _ _ (Reads-lift _) (λ subject found.
              Triple-conseq _ (λ x h. h)
                (λ u x c.
                  claimed p input subdomain name subject w.db ctx parsed
                    (subject_found ctx subject found) u x c)
                (λ e x h. tt)
                (Leads-run ctx _ (Leads-confirm_claim p input subdomain name subject w.db ctx)
                  (Leads-confirm_claim p input subdomain name subject w.db (inside ctx))))))))
