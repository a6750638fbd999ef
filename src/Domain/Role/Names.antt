-- ===== src/Domain/Role/Names.antt =====
-- The texts of a role, which the tables and the API carry.
use tolo_tenant_management.Prelude.{◌≡◌, refl, String}
use tolo_tenant_management.Failure.{ok}
use tolo_tenant_management.Domain.Enum.{name-parse_among}
use tolo_tenant_management.Domain.Role.{
  Role, unspecified, owner, staff, admin, other, to_string, parse, declared,
}

-- a constant is declared for the value
abbrev pub IsDeclared : Role → Type 0
IsDeclared (other n) = ⊥
IsDeclared _ = Unit

parse-to_string : (v : Role) → IsDeclared v → parse (to_string v) ≡ ok v
unfolding parse
parse-to_string unspecified h = refl
parse-to_string owner h = refl
parse-to_string staff h = refl
parse-to_string admin h = refl
parse-to_string (other n) h = elim h [ ]

-- A role that a text parses to is written as that text, and every declared one is parsed back from
-- what it is written as.
pub role_round_trip :
    (s : String) (v : Role)
    → (parse s ≡ ok v → to_string v ≡ s) × (IsDeclared v → parse (to_string v) ≡ ok v)
unfolding parse
role_round_trip s v = (name-parse_among to_string declared s, parse-to_string v)
