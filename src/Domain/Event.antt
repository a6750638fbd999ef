-- ===== src/Domain/Event.antt =====
-- internal/tenant/domain/event.go and event_enum_string.go.
pub mod Lifecycle
pub mod Names
use tolo_tenant_management.Prelude.{
  ℕ, ◌+◌, String, Bool, false, ◌||◌, List, [], ◌∷◌, if◌then◌else◌, ◌==◌,
}
use tolo_tenant_management.Text.{numbered}
use tolo_tenant_management.Failure.{Result, ok, err, sentinel, invalid_transition}
use tolo_tenant_management.Domain.Enum.{parse_among}

-- `other n` is the value n + 6, for which no constant is declared.
pub data EventStatus : Type 0 where
  unspecified draft opened locked closed archived : EventStatus
  other : ℕ → EventStatus

unfoldable pub to_string : EventStatus → String
unfolding numbered
to_string unspecified = "unspecified"
to_string draft = "draft"
to_string opened = "open"
to_string locked = "locked"
to_string closed = "closed"
to_string archived = "archived"
to_string (other n) = numbered "EventStatus" (n + 6)

abbrev pub declared : List EventStatus
declared = unspecified ∷ draft ∷ opened ∷ locked ∷ closed ∷ archived ∷ []

unfoldable pub parse : String → Result EventStatus
unfolding to_string parse_among
parse s = parse_among to_string declared s

-- The value of the constant, on which `==` compares.
abbrev pub value : EventStatus → ℕ
value unspecified = 0
value draft = 1
value opened = 2
value locked = 3
value closed = 4
value archived = 5
value (other n) = n + 6

abbrev pub same : EventStatus → EventStatus → Bool
same a b = value a == value b

unfoldable pub can_transition : EventStatus → EventStatus → Bool
can_transition unspecified to = false
can_transition draft to = same to opened || same to archived
can_transition opened to = same to locked
can_transition locked to = same to closed || same to opened
can_transition closed to = same to archived || same to opened
can_transition archived to = same to closed
can_transition (other n) to = false

pub record Event : Type 0 where
  pub id : String
  pub public_id : String
  pub tenant_id : String
  pub tenant_public_id : String
  pub name : String
  pub status : EventStatus

unfoldable pub transition_to : Event → EventStatus → Result Event
unfolding can_transition
transition_to e to =
    if can_transition e.status to
    then ok (record e { status = to })
    else err (sentinel invalid_transition)
