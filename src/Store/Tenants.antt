-- ===== src/Store/Tenants.antt =====
-- The statements on `tenants` in internal/tenant/infra/db/tenant.go.
use tolo_tenant_management.Prelude.{
  ℕ, String, Bool, true, false, not, ◌&&◌, ◌||◌, Option, none, some, List, [], ◌∷◌, leb, str_eq,
  find, reject, count_of, any, rewrite, if◌then◌else◌,
}
use tolo_tenant_management.Failure.{PgError, Result, ok}
use tolo_tenant_management.Store.{TenantRow, Db, checked, unique, check, too_long}

abbrev pub is_some {ℓ} : {A : Type ℓ} → Option A → Bool
is_some none = false
is_some (some a) = true

-- tenants_ownership_claim_check
abbrev pub claim_consistent : TenantRow → Bool
claim_consistent t =
    (str_eq t.ownership_state "pending_owner"
      && is_some t.claim_token_hash
      && is_some t.claim_expires_at)
    || (str_eq t.ownership_state "owned"
        && not (is_some t.claim_token_hash)
        && not (is_some t.claim_expires_at))

-- tenants_subdomain_check
abbrev pub subdomain_consistent : TenantRow → Bool
subdomain_consistent t =
    if str_eq t.ownership_state "owned" then is_some t.subdomain else not (is_some t.subdomain)

abbrev same_subdomain : Option String → Option String → Bool
same_subdomain (some a) (some b) = str_eq a b
same_subdomain _ _ = false

-- The constraints of one row among the other rows of the table.
abbrev pub tenant_checks : TenantRow → List TenantRow → List (Bool × PgError)
tenant_checks t others =
    too_long 16 t.public_id
    ∷ too_long 255 t.name
    ∷ too_long 255 t.contract_plan
    ∷ elim t.subdomain [ none ↦ (false, (too_long 63 "").1) | some s ↦ too_long 63 s ]
    ∷ (not (claim_consistent t), check "tenants_ownership_claim_check")
    ∷ (
      not (str_eq t.ownership_state "pending_owner" || str_eq t.ownership_state "owned"),
      check "tenants_ownership_state_check",
    )
    ∷ (not (subdomain_consistent t), check "tenants_subdomain_check")
    ∷ (any (λ o. str_eq o.id t.id) others, unique "tenants_pkey")
    ∷ (any (λ o. str_eq o.public_id t.public_id) others, unique "tenants_public_id_key")
    ∷ (any (λ o. same_subdomain o.subdomain t.subdomain) others, unique "tenants_subdomain_key")
    ∷ []

unfoldable pub insert : TenantRow → Db → Result ℕ × Db
insert t d = checked (tenant_checks t d.tenants) 1 (record d { tenants = t ∷ d.tenants }) d

-- A pending tenant whose claim has expired; an owned one has no expiry, and NULL <= $2 is not true.
abbrev pub expired_pending : ℕ → TenantRow → Bool
expired_pending now t =
    str_eq t.ownership_state "pending_owner"
    && elim t.claim_expires_at [ none ↦ false | some at ↦ leb at now ]

-- DELETE with the cascades of the foreign keys.
unfoldable pub delete_expired : ℕ → Db → Result ℕ × Db
delete_expired now d =
    let gone = λ (id : String). any (λ t. expired_pending now t && str_eq t.id id) d.tenants in
    (
      ok (count_of (expired_pending now) d.tenants),
      record d {
        tenants = reject (expired_pending now) d.tenants;
        events = reject (λ e. gone e.tenant_id) d.events;
        memberships = reject (λ m. gone m.tenant_id) d.memberships;
        event_roles = reject (λ r. gone r.tenant_id) d.event_roles;
        invitations = reject (λ i. gone i.tenant_id) d.invitations;
      },
    )

-- UPDATE of the rows that `here` picks. It names the primary key, so that they are one at most.
abbrev pub update : (TenantRow → Bool) → (TenantRow → TenantRow) → Db → Result ℕ × Db
update here change d = elim (find here d.tenants) [
  | none ↦ (ok 0, d)
  | some t ↦
      checked (tenant_checks (change t) (reject here d.tenants)) (count_of here d.tenants)
        (record d { tenants = rewrite here change d.tenants }) d
]

abbrev pub claimable : String → TenantRow → Bool
claimable id t = str_eq t.id id && str_eq t.ownership_state "pending_owner"

abbrev pub with_owner : Option String → TenantRow → TenantRow
with_owner subdomain t = record t {
  ownership_state = "owned";
  subdomain = subdomain;
  claim_token_hash = none;
  claim_expires_at = none;
}

unfoldable pub mark_owned : String → Option String → Db → Result ℕ × Db
mark_owned id subdomain = update (claimable id) (with_owner subdomain)

unfoldable pub set_plan_archived : String → String → Bool → Db → Result ℕ × Db
set_plan_archived id plan archived =
    update (λ t. str_eq t.id id) (λ t. record t { contract_plan = plan; archived = archived })

unfoldable pub by_id : String → Db → Option TenantRow
by_id id d = find (λ t. str_eq t.id id) d.tenants

unfoldable pub by_public_id : String → Db → Option TenantRow
by_public_id public_id d = find (λ t. str_eq t.public_id public_id) d.tenants

-- WHERE subdomain = $1: a NULL is equal to nothing.
unfoldable pub by_subdomain : String → Db → Option TenantRow
by_subdomain subdomain d =
    find (λ t. elim t.subdomain [ none ↦ false | some s ↦ str_eq s subdomain ]) d.tenants
