-- ===== src/Domain/Tenant/Names.antt =====
-- The texts of a ownership state, which the tables and the API carry.
use tolo_tenant_management.Prelude.{◌≡◌, refl, String}
use tolo_tenant_management.Failure.{ok}
use tolo_tenant_management.Domain.Enum.{name-parse_among}
use tolo_tenant_management.Domain.Tenant.{
  OwnershipState, unspecified, pending_owner, owned, other, to_string, parse, declared,
}

-- a constant is declared for the value
abbrev pub IsDeclared : OwnershipState → Type 0
IsDeclared (other n) = ⊥
IsDeclared _ = Unit

parse-to_string : (v : OwnershipState) → IsDeclared v → parse (to_string v) ≡ ok v
unfolding parse
parse-to_string unspecified h = refl
parse-to_string pending_owner h = refl
parse-to_string owned h = refl
parse-to_string (other n) h = elim h [ ]

-- An ownership state that a text parses to is written as that text, and every declared one is parsed back from
-- what it is written as.
pub ownership_state_round_trip :
    (s : String) (v : OwnershipState)
    → (parse s ≡ ok v → to_string v ≡ s) × (IsDeclared v → parse (to_string v) ≡ ok v)
unfolding parse
ownership_state_round_trip s v = (name-parse_among to_string declared s, parse-to_string v)
