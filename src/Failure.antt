-- ===== src/Failure.antt =====
-- Go errors as values: the sentinel errors of every package (`errors.New` in internal/tenant,
-- internal/relation, internal/tenantctx and internal/infra/db), the PostgreSQL errors that the
-- code looks into, and the wrapping by `%w` and `errors.Join` that `errors.Is` and `errors.As`
-- walk through. The texts that wrapping adds are not kept.
pub mod Traverse
use tolo_tenant_management.Prelude.{
  ◌≡◌, List, [], ◌∷◌, ℕ, String, Bool, false, ◌||◌, Option, none, some, ◌==◌,
}

pub data Sentinel : Type 0 where
  -- internal/tenant/application
  tenant_name_required contract_plan_required tenant_id_required event_name_required : Sentinel
  event_id_required event_status_required subdomain_required tenant_pending_owner : Sentinel
  claim_token_required claim_rejected creator_not_member permission_denied : Sentinel
  -- internal/tenant/domain
  invalid_transition not_pending_owner already_archived invalid_subdomain : Sentinel
  -- internal/tenant/repository
  tenant_not_found tenant_archived tenant_public_id_exists subdomain_exists : Sentinel
  event_not_found event_archived event_public_id_exists : Sentinel
  -- internal/tenantctx
  context_missing subject_missing context_mismatch : Sentinel
  -- internal/relation/domain
  role_required role_reserved role_not_invitable : Sentinel
  display_name_required display_name_too_long invitation_not_pending : Sentinel
  -- internal/relation/repository
  membership_exists membership_not_found event_role_not_found membership_required : Sentinel
  relation_tenant_not_found relation_event_not_found : Sentinel
  invitation_not_found invitation_public_id_exists : Sentinel
  -- internal/relation/application
  relation_tenant_id_required relation_event_id_required user_id_required : Sentinel
  scope_required scope_ambiguous filter_required filter_ambiguous : Sentinel
  relation_pending_owner last_owner invitation_id_required invitation_token_required : Sentinel
  invitation_rejected relation_permission_denied : Sentinel
  -- internal/infra/db, database/sql and context
  transaction_aborted no_rows canceled deadline_exceeded : Sentinel

-- `errors.New` gives each sentinel an identity of its own: a number for each.
abbrev pub identity : Sentinel → ℕ
identity tenant_name_required = 0
identity contract_plan_required = 1
identity tenant_id_required = 2
identity event_name_required = 3
identity event_id_required = 4
identity event_status_required = 5
identity subdomain_required = 6
identity tenant_pending_owner = 7
identity claim_token_required = 8
identity claim_rejected = 9
identity creator_not_member = 10
identity permission_denied = 11
identity invalid_transition = 12
identity not_pending_owner = 13
identity already_archived = 14
identity invalid_subdomain = 15
identity tenant_not_found = 16
identity tenant_archived = 17
identity tenant_public_id_exists = 18
identity subdomain_exists = 19
identity event_not_found = 20
identity event_archived = 21
identity event_public_id_exists = 22
identity context_missing = 23
identity subject_missing = 24
identity context_mismatch = 25
identity role_required = 26
identity role_reserved = 27
identity role_not_invitable = 28
identity display_name_required = 29
identity display_name_too_long = 30
identity invitation_not_pending = 31
identity membership_exists = 32
identity membership_not_found = 33
identity event_role_not_found = 34
identity membership_required = 35
identity relation_tenant_not_found = 36
identity relation_event_not_found = 37
identity invitation_not_found = 38
identity invitation_public_id_exists = 39
identity relation_tenant_id_required = 40
identity relation_event_id_required = 41
identity user_id_required = 42
identity scope_required = 43
identity scope_ambiguous = 44
identity filter_required = 45
identity filter_ambiguous = 46
identity relation_pending_owner = 47
identity last_owner = 48
identity invitation_id_required = 49
identity invitation_token_required = 50
identity invitation_rejected = 51
identity relation_permission_denied = 52
identity transaction_aborted = 53
identity no_rows = 54
identity canceled = 55
identity deadline_exceeded = 56

-- `pgconn.PgError`: the SQLSTATE and the name of the violated constraint.
pub record PgError : Type 0 where
  pub code : String
  pub constraint : String

pub data Err : Type 0 where
  sentinel : Sentinel → Err
  pg : PgError → Err
  -- an error that nothing in the program looks into, such as a driver's or a parser's
  opaque : String → Err
  wrap : Err → Err
  join : Err → Err → Err

abbrev pub same_sentinel : Sentinel → Sentinel → Bool
same_sentinel a b = identity a == identity b

-- `errors.Is`
unfoldable pub is : Err → Sentinel → Bool
is (sentinel s) t = same_sentinel s t
is (pg e) t = false
is (opaque m) t = false
is (wrap e) t = is e t
is (join d e) t = is d t || is e t

-- `errors.As` into a `*pgconn.PgError`: the first one in the order in which `errors.As` walks.
unfoldable pub as_pg : Err → Option PgError
as_pg (sentinel s) = none
as_pg (pg e) = some e
as_pg (opaque m) = none
as_pg (wrap e) = as_pg e
as_pg (join d e) = let rest = as_pg e in elim (as_pg d) [ some p ↦ some p | none ↦ rest ]

-- A Go function's `(value, error)`: the value on a nil error, and the error else.
pub data Result {ℓ} (A : Type ℓ) : Type ℓ where
  -- a nil error
  ok : A → Result A
  -- an error, whatever stands beside it
  err : Err → Result A

module _ {ℓ κ} {A : Type ℓ} {B : Type κ} where
  infixl 10 ◌>>=◌
  -- `if err != nil { return err }` behind a call of a pure function
  abbrev pub ◌>>=◌ : Result A → (A → Result B) → Result B
  ok value >>= next = next value
  err cause >>= next = err cause

-- an error that is returned inside another one
abbrev pub wrapped {ℓ} : {A : Type ℓ} → Result A → Result A
wrapped (ok a) = ok a
wrapped (err e) = err (wrap e)

-- a loop that returns at the first error
abbrev pub traverse : {A B : Type 0} → (A → Result B) → List A → Result (List B)
traverse f [] = ok []
traverse f (x ∷ xs) = let rest = traverse f xs in f x >>= λ y. rest >>= λ ys. ok (y ∷ ys)

pub wrapped-eq_ok {ℓ} : {A : Type ℓ} (m : Result A) {a : A} → wrapped m ≡ ok a → m ≡ ok a
wrapped-eq_ok (ok a) h = h
wrapped-eq_ok (err e) h = cc
