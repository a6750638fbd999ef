-- ===== src/Store/Memberships.antt =====
-- The statements on `tenant_memberships` and `event_roles` in
-- internal/relation/infra/db/membership.go.
pub mod Listed
pub mod Roster
use Prim.Native.Nat.{compare as compare_ℕ, Ordering}
use Prim.Native.String.{compare}
use text.Mathlib.Text.{is_le}
use tolo_tenant_management.Prelude.{
  ℕ, String, Bool, true, false, not, ◌&&◌, ◌||◌, Option, none, some, List, [], ◌∷◌, str_eq, find,
  select, reject, count_of, any, rewrite, sort, if◌then◌else◌,
}
use tolo_tenant_management.Failure.{PgError, Result, ok, err, sentinel, no_rows, pg}
use tolo_tenant_management.Store.{
  MembershipRow, EventRoleRow, EventRow, Db, violation, checked, unique, foreign_key, check,
  too_long,
}

-- tenant_role IN ('owner', 'staff')
abbrev pub storable_role : String → Bool
storable_role role = str_eq role "owner" || str_eq role "staff"

abbrev pub is_member : String → String → MembershipRow → Bool
is_member tenant_id user_id m = str_eq m.tenant_id tenant_id && str_eq m.user_id user_id

-- btrim(display_name) <> '': a name of spaces alone
abbrev pub blank : String → Bool
blank String.[] = true
blank (String.◌∷◌ c s) = str_eq (String.◌∷◌ c "") " " && blank s

abbrev pub insert_checks : MembershipRow → Db → List (Bool × PgError)
insert_checks m d =
    too_long 255 m.user_id
    ∷ too_long 32 m.tenant_role
    ∷ too_long 64 m.display_name
    ∷ (blank m.display_name, check "tenant_memberships_display_name_check")
    ∷ (not (storable_role m.tenant_role), check "tenant_memberships_tenant_role_check")
    ∷ (any (is_member m.tenant_id m.user_id) d.memberships, unique "tenant_memberships_pkey")
    ∷ (
      not (any (λ t. str_eq t.id m.tenant_id) d.tenants),
      foreign_key "tenant_memberships_tenant_id_fkey",
    )
    ∷ []

unfoldable pub insert : MembershipRow → Db → Result ℕ × Db
insert m d = checked (insert_checks m d) 1 (record d { memberships = m ∷ d.memberships }) d

abbrev pub set_role_checks : String → List (Bool × PgError)
set_role_checks role =
    too_long 32 role ∷ (not (storable_role role), check "tenant_memberships_tenant_role_check") ∷ []

abbrev pub with_role : String → MembershipRow → MembershipRow
with_role role m = record m { tenant_role = role }

unfoldable pub set_role : String → String → String → Db → Result ℕ × Db
set_role tenant_id user_id role d =
    let here = is_member tenant_id user_id in
    if not (any here d.memberships)
    then (ok 0, d)
    else checked (set_role_checks role) (count_of here d.memberships)
        (record d { memberships = rewrite here (with_role role) d.memberships }) d

abbrev pub holds_event_role : String → String → EventRoleRow → Bool
holds_event_role event_id user_id r = str_eq r.event_id event_id && str_eq r.user_id user_id

-- the write of one event role, once its event is known
abbrev pub put_event_role : EventRow → String → String → Db → Result String × Db
put_event_role e user_id role d =
    if any (holds_event_role e.id user_id) d.event_roles
    then (
      ok e.tenant_id,
      record d {
        event_roles =
            rewrite (holds_event_role e.id user_id) (λ r. record r { role = role }) d.event_roles;
      },
    )
    else if not (any (is_member e.tenant_id user_id) d.memberships)
    then (err (pg (foreign_key "event_roles_membership_fkey")), d)
    else (
      ok e.tenant_id,
      record d {
        event_roles =
            record { event_id = e.id; tenant_id = e.tenant_id; user_id = user_id; role = role }
            ∷ d.event_roles;
      },
    )

abbrev pub upsert_checks : String → String → List (Bool × PgError)
upsert_checks user_id role =
    too_long 255 user_id ∷ (not (storable_role role), check "event_roles_role_check") ∷ []

-- INSERT … SELECT … ON CONFLICT (event_id, user_id) DO UPDATE … RETURNING tenant_id.
unfoldable pub upsert_event_role : String → String → String → Db → Result String × Db
upsert_event_role event_id user_id role d = elim (find (λ e. str_eq e.id event_id) d.events) [
  | none ↦ (err (sentinel no_rows), d)
  | some e ↦ elim (violation (upsert_checks user_id role)) [
    | some broken ↦ (err (pg broken), d)
    | none ↦ put_event_role e user_id role d
  ]
]

-- DELETE of one membership, with the cascade to its event roles.
unfoldable pub delete : String → String → Db → Result ℕ × Db
delete tenant_id user_id d = (
  ok (count_of (is_member tenant_id user_id) d.memberships),
  record d {
    memberships = reject (is_member tenant_id user_id) d.memberships;
    event_roles =
        if any (is_member tenant_id user_id) d.memberships
        then reject (λ r. str_eq r.tenant_id tenant_id && str_eq r.user_id user_id) d.event_roles
        else d.event_roles;
  },
)

unfoldable pub delete_event_role : String → String → Db → Result ℕ × Db
delete_event_role event_id user_id d = (
  ok (count_of (holds_event_role event_id user_id) d.event_roles),
  record d { event_roles = reject (holds_event_role event_id user_id) d.event_roles },
)

unfoldable pub role_of : String → String → Db → Option String
role_of tenant_id user_id d = elim (find (is_member tenant_id user_id) d.memberships) [
  | none ↦ none
  | some m ↦ some m.tenant_role
]

abbrev pub is_owner_of : String → MembershipRow → Bool
is_owner_of tenant_id m = str_eq m.tenant_id tenant_id && str_eq m.tenant_role "owner"

unfoldable pub count_owners : String → Db → ℕ
count_owners tenant_id d = count_of (is_owner_of tenant_id) d.memberships

-- ORDER BY m.tenant_id, m.joined_at, m.user_id, where the tenant is one
abbrev pub before : MembershipRow → MembershipRow → Bool
before a b = elim (compare_ℕ a.joined_at b.joined_at) [
  | Ordering.lt ↦ true
  | Ordering.eq ↦ is_le (compare a.user_id b.user_id)
  | Ordering.gt ↦ false
]

-- a membership and the public ID of its tenant
pub record MembershipView : Type 0 where
  pub row : MembershipRow
  pub public_id : String

-- a role on an event, with the public ID of the event
pub record EventRoleView : Type 0 where
  pub row : EventRoleRow
  pub public_id : String

abbrev with_tenant : Db → List MembershipRow → List MembershipView
with_tenant d [] = []
with_tenant d (m ∷ ms) =
    let rest = with_tenant d ms in
    elim (find (λ t. str_eq t.id m.tenant_id) d.tenants) [
      | none ↦ rest
      | some t ↦ record { row = m; public_id = t.public_id } ∷ rest
    ]

-- tenant_memberships JOIN tenants, filtered and ordered
unfoldable pub list : (MembershipRow → Bool) → Db → List MembershipView
list here d = with_tenant d (sort before (select here d.memberships))

abbrev with_event : Db → List EventRoleRow → List EventRoleView
with_event d [] = []
with_event d (r ∷ rs) =
    let rest = with_event d rs in
    elim (find (λ e. str_eq e.id r.event_id) d.events) [
      | none ↦ rest
      | some e ↦ record { row = r; public_id = e.public_id } ∷ rest
    ]

abbrev earlier_event : EventRoleRow → EventRoleRow → Bool
earlier_event a b = is_le (compare a.event_id b.event_id)

-- event_roles JOIN tenant_memberships JOIN events, filtered by the membership and ordered
unfoldable pub list_event_roles : (MembershipRow → Bool) → Db → List EventRoleView
list_event_roles here d = with_event d (
    sort earlier_event (
      select (λ r. any (λ m. here m && is_member r.tenant_id r.user_id m) d.memberships)
        d.event_roles))
