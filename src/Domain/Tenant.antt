-- ===== src/Domain/Tenant.antt =====
-- internal/tenant/domain/tenant.go, tenant_enum_string.go and ownership.go.
pub mod Names
use tolo_tenant_management.Prelude.{
  ℕ, ◌+◌, String, Bool, true, false, not, List, [], ◌∷◌, ltb, if◌then◌else◌,
}
use tolo_tenant_management.Text.{numbered}
use tolo_tenant_management.Failure.{Result, ok, err, sentinel, not_pending_owner, already_archived}
use tolo_tenant_management.Domain.Enum.{parse_among}
use tolo_tenant_management.Domain.Subdomain.{Subdomain}

-- `other n` is the value n + 3, for which no constant is declared.
pub data OwnershipState : Type 0 where
  unspecified pending_owner owned : OwnershipState
  other : ℕ → OwnershipState

unfoldable pub to_string : OwnershipState → String
unfolding numbered
to_string unspecified = "unspecified"
to_string pending_owner = "pending_owner"
to_string owned = "owned"
to_string (other n) = numbered "TenantOwnershipState" (n + 3)

abbrev pub declared : List OwnershipState
declared = unspecified ∷ pending_owner ∷ owned ∷ []

unfoldable pub parse : String → Result OwnershipState
unfolding to_string parse_among
parse s = parse_among to_string declared s

pub record Tenant : Type 0 where
  pub id : String
  pub public_id : String
  pub name : String
  pub contract_plan : String
  pub ownership_state : OwnershipState
  pub subdomain : Subdomain
  pub archived : Bool

abbrev pub is_owned : OwnershipState → Bool
is_owned owned = true
is_owned _ = false

abbrev pub is_pending_owner : OwnershipState → Bool
is_pending_owner pending_owner = true
is_pending_owner _ = false

unfoldable pub claim_ownership : Tenant → Subdomain → Result Tenant
claim_ownership t subdomain =
    if not (is_pending_owner t.ownership_state)
    then err (sentinel not_pending_owner)
    else ok (record t { ownership_state = owned; subdomain = subdomain })

unfoldable pub change_contract_plan : Tenant → String → Tenant
change_contract_plan t plan = record t { contract_plan = plan }

unfoldable pub archive : Tenant → Result Tenant
archive t =
    if t.archived then err (sentinel already_archived) else ok (record t { archived = true })

-- The SHA-256 digest of a token: its bytes.
abbrev pub Hash : Type 0
Hash = List ℕ

pub record OwnershipClaim : Type 0 where
  pub token_hash : Hash
  pub expires_at : ℕ

unfoldable pub expired : OwnershipClaim → ℕ → Bool
expired c now = not (ltb now c.expires_at)
