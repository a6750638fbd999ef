-- ===== src/Domain/Role.antt =====
-- internal/relation/domain/role.go, role_enum_string.go and permission.go.
pub mod Names
use tolo_tenant_management.Prelude.{
  ℕ, ◌+◌, String, Bool, true, false, ◌||◌, List, [], ◌∷◌, any, str_eq,
}
use tolo_tenant_management.Text.{numbered}
use tolo_tenant_management.Failure.{
  Result, ok, err, sentinel, opaque, role_required, role_reserved, role_not_invitable,
}
use tolo_tenant_management.Domain.Enum.{parse_among}

-- `other n` is the value n + 4, for which no constant is declared.
pub data Role : Type 0 where
  unspecified owner staff admin : Role
  other : ℕ → Role

unfoldable pub to_string : Role → String
unfolding numbered
to_string unspecified = "unspecified"
to_string owner = "owner"
to_string staff = "staff"
to_string admin = "admin"
to_string (other n) = numbered "Role" (n + 4)

abbrev pub declared : List Role
declared = unspecified ∷ owner ∷ staff ∷ admin ∷ []

unfoldable pub parse : String → Result Role
unfolding to_string parse_among
parse s = parse_among to_string declared s

unfoldable pub grantable : Role → Result (Unit {0})
grantable owner = ok tt
grantable staff = ok tt
grantable admin = err (sentinel role_reserved)
grantable unspecified = err (sentinel role_required)
grantable (other n) = err (opaque "invalid role")

unfoldable pub invitable : Role → Result (Unit {0})
invitable staff = ok tt
invitable _ = err (sentinel role_not_invitable)

-- `slices.Contains`
abbrev pub contains : List String → String → Bool
contains xs s = any (λ x. str_eq x s) xs

abbrev pub member_scopes : List String
member_scopes =
    "tenant.read" ∷ "events.read" ∷ "events.manage" ∷ "events.operate" ∷ "events.report" ∷ []

abbrev pub scope_tenant_write : String
scope_tenant_write = "tenant.write"

abbrev pub admin_scopes : List String
admin_scopes = scope_tenant_write ∷ []

unfoldable pub grants : Role → String → Bool
grants owner scope = contains member_scopes scope || contains admin_scopes scope
grants admin scope = contains member_scopes scope || contains admin_scopes scope
grants staff scope = contains member_scopes scope
grants unspecified scope = false
grants (other n) scope = false

abbrev pub is_owner : Role → Bool
is_owner owner = true
is_owner _ = false
