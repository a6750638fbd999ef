-- ===== src/Repository/Memberships.antt =====
-- internal/relation/infra/db/membership.go.
use tolo_tenant_management.Prelude.{
  ℕ, String, Bool, ◌&&◌, none, some, List, [], ◌∷◌, map, str_eq, select, if◌then◌else◌,
}
use tolo_tenant_management.Failure
use tolo_tenant_management.Failure.{
  Err, sentinel, wrap, as_pg, is, Result, ok, wrapped, traverse, membership_exists,
  membership_not_found, membership_required, relation_tenant_not_found, relation_event_not_found,
  event_role_not_found, no_rows,
}
use tolo_tenant_management.Context.{Context, verify_ownership}
use tolo_tenant_management.Domain.Role
use tolo_tenant_management.Domain.Role.{Role, grantable}
use tolo_tenant_management.Domain.DisplayName
use tolo_tenant_management.Domain.DisplayName.{DisplayName}
use tolo_tenant_management.Domain.Membership.{Membership, EventRole}
use tolo_tenant_management.Store.{MembershipRow, Db}
use tolo_tenant_management.Store.Memberships as Sql
use tolo_tenant_management.Store.Memberships.{MembershipView, EventRoleView, is_member}
use tolo_tenant_management.Exec.{Exec, pure, fail, lift, statement, query, map_error, ◌>>=◌, ◌>>◌}
use tolo_tenant_management.Repository.{get, or_missing, expect_one_row}

unfoldable pub map_membership_constraint_error : Err → Err
unfolding as_pg
map_membership_constraint_error e = elim (as_pg e) [
  | none ↦ e
  | some p ↦
      if str_eq p.constraint "tenant_memberships_pkey"
      then sentinel membership_exists
      else if str_eq p.constraint "tenant_memberships_tenant_id_fkey"
      then sentinel relation_tenant_not_found
      else if str_eq p.constraint "event_roles_membership_fkey"
      then sentinel membership_required
      else if str_eq p.constraint "event_roles_event_fkey"
      then sentinel relation_event_not_found
      else e
]

abbrev pub event_role_of : EventRoleView → Result EventRole
event_role_of v =
    Failure.◌>>=◌ (wrapped (Role.parse v.row.role))
      λ role. ok (record { event_id = v.row.event_id; event_public_id = v.public_id; role = role })

-- an event role beside the key (tenant_id, user_id) that it is grouped by
abbrev pub keyed_role_of : EventRoleView → Result (String × String × EventRole)
keyed_role_of v = Failure.◌>>=◌ (event_role_of v) λ r. ok (v.row.tenant_id, v.row.user_id, r)

-- `eventRoles[key]`
abbrev pub roles_at : MembershipRow → List (String × String × EventRole) → List EventRole
roles_at m roles =
    map (λ (k : String × String × EventRole). k.2)
      (select (λ (k : String × String × EventRole). str_eq k.0 m.tenant_id && str_eq k.1 m.user_id)
        roles)

unfoldable pub membership_of :
    Context → List (String × String × EventRole) → MembershipView → Result Membership
membership_of ctx roles v = Failure.◌>>=◌ (verify_ownership ctx v.public_id) λ _.
    Failure.◌>>=◌ (wrapped (Role.parse v.row.tenant_role)) λ role.
      Failure.◌>>=◌ (wrapped (DisplayName.parse v.row.display_name)) λ name. ok (record {
        user_id = v.row.user_id;
        tenant_id = v.row.tenant_id;
        tenant_public_id = v.public_id;
        tenant_role = role;
        display_name = name;
        joined_at = v.row.joined_at;
        event_roles = roles_at v.row roles;
      })

abbrev pub with_roles :
    Context → (MembershipRow → Bool) → List MembershipView → Exec (List Membership)
with_roles ctx here [] = pure []
with_roles ctx here (v ∷ vs) = do
  role_rows ← map_error wrap (query (Sql.list_event_roles here))
  roles ← lift (traverse keyed_role_of role_rows)
  lift (traverse (membership_of ctx roles) (v ∷ vs))

-- The filter is a condition on the rows of `tenant_memberships`.
unfoldable pub list_memberships : Context → (MembershipRow → Bool) → Exec (List Membership)
unfolding membership_of
list_memberships ctx here = do
  rows ← map_error wrap (query (Sql.list here))
  with_roles ctx here rows

abbrev pub first_or_missing : List Membership → Exec Membership
first_or_missing [] = fail (sentinel membership_not_found)
first_or_missing (m ∷ ms) = pure m

unfoldable pub find_membership : Context → String → String → Exec Membership
unfolding list_memberships
find_membership ctx tenant_id user_id = do
  memberships ← list_memberships ctx (is_member tenant_id user_id)
  first_or_missing memberships

unfoldable pub list_memberships_by_tenant : Context → String → Exec (List Membership)
unfolding list_memberships
list_memberships_by_tenant ctx tenant_id = list_memberships ctx (λ m. str_eq m.tenant_id tenant_id)

-- joined_at DEFAULT CURRENT_TIMESTAMP
abbrev pub new_row : String → String → Role → DisplayName → Db → MembershipRow
new_row tenant_id user_id role name d = record {
  tenant_id = tenant_id;
  user_id = user_id;
  tenant_role = Role.to_string role;
  display_name = name.value;
  joined_at = d.now;
}

unfoldable pub add_tenant_member : Context → String → String → Role → DisplayName → Exec Membership
unfolding map_membership_constraint_error find_membership
add_tenant_member ctx tenant_id user_id role name = do
  lift (grantable role)
  _ ←
      map_error map_membership_constraint_error
        (statement (λ d. Sql.insert (new_row tenant_id user_id role name d) d))
  find_membership ctx tenant_id user_id

unfoldable pub add_owner : Context → String → String → DisplayName → Exec (Unit {0})
unfolding add_tenant_member
add_owner ctx tenant_id user_id name = do
  _ ← add_tenant_member ctx tenant_id user_id Role.owner name
  pure tt

unfoldable pub change_tenant_role : Context → String → String → Role → Exec Membership
unfolding find_membership
change_tenant_role ctx tenant_id user_id role = do
  lift (grantable role)
  rows ← map_error wrap (statement (Sql.set_role tenant_id user_id (Role.to_string role)))
  expect_one_row rows membership_not_found
  find_membership ctx tenant_id user_id

unfoldable pub grant_event_role : Context → String → String → Role → Exec Membership
unfolding map_membership_constraint_error find_membership
grant_event_role ctx event_id user_id role = do
  lift (grantable role)
  tenant_id ←
      map_error (or_missing relation_event_not_found map_membership_constraint_error)
        (statement (Sql.upsert_event_role event_id user_id (Role.to_string role)))
  find_membership ctx tenant_id user_id

unfoldable pub revoke_tenant_membership : String → String → Exec (Unit {0})
revoke_tenant_membership tenant_id user_id = do
  rows ← map_error wrap (statement (Sql.delete tenant_id user_id))
  expect_one_row rows membership_not_found

unfoldable pub revoke_event_role : String → String → Exec (Unit {0})
revoke_event_role event_id user_id = do
  rows ← map_error wrap (statement (Sql.delete_event_role event_id user_id))
  expect_one_row rows event_role_not_found

-- The advisory lock: one round trip, and no change of the tables.
unfoldable pub lock_tenant_memberships : String → Exec (Unit {0})
lock_tenant_memberships tenant_id = map_error wrap (query (λ d. tt))

unfoldable pub find_tenant_role_for_share : String → String → Exec Role
find_tenant_role_for_share tenant_id user_id = do
  role ← map_error (or_missing membership_not_found wrap) (get (Sql.role_of tenant_id user_id))
  lift (wrapped (Role.parse role))

unfoldable pub count_tenant_owners : String → Exec ℕ
count_tenant_owners tenant_id = map_error wrap (query (Sql.count_owners tenant_id))
