-- ===== src/Domain/Event/Names.antt =====
-- The texts of a event status, which the tables and the API carry.
use tolo_tenant_management.Prelude.{◌≡◌, refl, String}
use tolo_tenant_management.Failure.{ok}
use tolo_tenant_management.Domain.Enum.{name-parse_among}
use tolo_tenant_management.Domain.Event.{
  EventStatus, unspecified, draft, opened, locked, closed, archived, other, to_string, parse,
  declared,
}

-- a constant is declared for the value
abbrev pub IsDeclared : EventStatus → Type 0
IsDeclared (other n) = ⊥
IsDeclared _ = Unit

parse-to_string : (v : EventStatus) → IsDeclared v → parse (to_string v) ≡ ok v
unfolding parse
parse-to_string unspecified h = refl
parse-to_string draft h = refl
parse-to_string opened h = refl
parse-to_string locked h = refl
parse-to_string closed h = refl
parse-to_string archived h = refl
parse-to_string (other n) h = elim h [ ]

-- An event status that a text parses to is written as that text, and every declared one is parsed back from
-- what it is written as.
pub event_status_round_trip :
    (s : String) (v : EventStatus)
    → (parse s ≡ ok v → to_string v ≡ s) × (IsDeclared v → parse (to_string v) ≡ ok v)
unfolding parse
event_status_round_trip s v = (name-parse_among to_string declared s, parse-to_string v)
