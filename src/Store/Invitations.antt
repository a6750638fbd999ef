-- ===== src/Store/Invitations.antt =====
-- The statements on `tenant_invitations` in internal/relation/infra/db/invitation.go.
pub mod Found
use Prim.Native.Nat.{compare as compare_ℕ, Ordering}
use Prim.Native.String.{compare}
use text.Mathlib.Text.{is_le}
use tolo_tenant_management.Prelude.{
  ℕ, String, Bool, true, false, not, ◌&&◌, Option, none, some, List, [], ◌∷◌, ◌==◌, ltb, str_eq,
  find, any, rewrite, select, sort,
}
use tolo_tenant_management.Failure.{PgError, Result, ok}
use tolo_tenant_management.Domain.Tenant.{Hash}
use tolo_tenant_management.Store.{InvitationRow, Db, checked, unique, foreign_key, check, too_long}
use tolo_tenant_management.Store.Tenants.{is_some}
use tolo_tenant_management.Store.Memberships.{blank}

-- equality of BYTEA
abbrev pub same_hash : Hash → Hash → Bool
same_hash [] [] = true
same_hash (a ∷ as_) (b ∷ bs) = a == b && same_hash as_ bs
same_hash _ _ = false

abbrev pub insert_checks : InvitationRow → Db → List (Bool × PgError)
insert_checks i d =
    too_long 16 i.public_id
    ∷ too_long 32 i.tenant_role
    ∷ too_long 64 i.display_name
    ∷ (blank i.display_name, check "tenant_invitations_display_name_check")
    ∷ (not (str_eq i.tenant_role "staff"), check "tenant_invitations_tenant_role_check")
    ∷ (any (λ o. str_eq o.id i.id) d.invitations, unique "tenant_invitations_pkey")
    ∷ (
      any (λ o. str_eq o.public_id i.public_id) d.invitations,
      unique "tenant_invitations_public_id_key",
    )
    ∷ (
      any (λ o. same_hash o.token_hash i.token_hash) d.invitations,
      unique "tenant_invitations_token_hash_key",
    )
    ∷ (
      not (any (λ t. str_eq t.id i.tenant_id) d.tenants),
      foreign_key "tenant_invitations_tenant_id_fkey",
    )
    ∷ []

unfoldable pub insert : InvitationRow → Db → Result ℕ × Db
insert i d = checked (insert_checks i d) 1 (record d { invitations = i ∷ d.invitations }) d

-- tenant_invitations_closed_check
abbrev pub closed_checks : InvitationRow → List (Bool × PgError)
closed_checks i =
    (is_some i.accepted_at && is_some i.revoked_at, check "tenant_invitations_closed_check") ∷ []

-- UPDATE by the primary key
abbrev pub update : String → (InvitationRow → InvitationRow) → Db → Result ℕ × Db
update id change d = elim (find (λ i. str_eq i.id id) d.invitations) [
  | none ↦ (ok 0, d)
  | some i ↦
      checked (closed_checks (change i)) 1
        (record d { invitations = rewrite (λ o. str_eq o.id id) change d.invitations }) d
]

unfoldable pub mark_accepted : String → String → ℕ → Db → Result ℕ × Db
mark_accepted id user_id at =
    update id (λ i. record i { accepted_at = some at; accepted_by = some user_id })

unfoldable pub mark_revoked : String → ℕ → Db → Result ℕ × Db
mark_revoked id at = update id (λ i. record i { revoked_at = some at })

abbrev pub has_public_id : String → String → InvitationRow → Bool
has_public_id tenant_id public_id i = str_eq i.tenant_id tenant_id && str_eq i.public_id public_id

abbrev pub has_token : String → Hash → InvitationRow → Bool
has_token tenant_id token_hash i = str_eq i.tenant_id tenant_id && same_hash i.token_hash token_hash

abbrev pub listed : String → ℕ → InvitationRow → Bool
listed tenant_id now i =
    str_eq i.tenant_id tenant_id
    && not (is_some i.accepted_at)
    && not (is_some i.revoked_at)
    && ltb now i.expires_at

-- an invitation and the public ID of its tenant
pub record InvitationView : Type 0 where
  pub row : InvitationRow
  pub public_id : String

-- tenant_invitations JOIN tenants
abbrev pub with_tenant : Db → List InvitationRow → List InvitationView
with_tenant d [] = []
with_tenant d (i ∷ is) =
    let rest = with_tenant d is in
    elim (find (λ t. str_eq t.id i.tenant_id) d.tenants) [
      | none ↦ rest
      | some t ↦ record { row = i; public_id = t.public_id } ∷ rest
    ]

abbrev first : List InvitationView → Option InvitationView
first [] = none
first (i ∷ is) = some i

-- the first row that a filter finds, with its tenant
unfoldable pub get : (InvitationRow → Bool) → Db → Option InvitationView
get here d = first (with_tenant d (select here d.invitations))

-- ORDER BY i.created_at, i.id
abbrev pub before : InvitationRow → InvitationRow → Bool
before a b = elim (compare_ℕ a.created_at b.created_at) [
  | Ordering.lt ↦ true
  | Ordering.eq ↦ is_le (compare a.id b.id)
  | Ordering.gt ↦ false
]

unfoldable pub list : String → ℕ → Db → List InvitationView
list tenant_id now d = with_tenant d (sort before (select (listed tenant_id now) d.invitations))
