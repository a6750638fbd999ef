-- ===== src/Repository/Invitations.antt =====
-- internal/relation/infra/db/invitation.go.
use tolo_tenant_management.Prelude.{ℕ, String, Bool, ◌&&◌, none, some, List, str_eq, if◌then◌else◌}
use tolo_tenant_management.Failure
use tolo_tenant_management.Failure.{
  Err, sentinel, wrap, as_pg, Result, ok, wrapped, traverse, invitation_not_found,
  invitation_public_id_exists,
}
use tolo_tenant_management.Domain.Role
use tolo_tenant_management.Domain.DisplayName
use tolo_tenant_management.Domain.Tenant.{Hash}
use tolo_tenant_management.Domain.Invitation
use tolo_tenant_management.Domain.Invitation.{Invitation, State}
use tolo_tenant_management.Store.{InvitationRow, Db}
use tolo_tenant_management.Store.Tenants.{is_some}
use tolo_tenant_management.Store.Invitations as Sql
use tolo_tenant_management.Store.Invitations.{InvitationView}
use tolo_tenant_management.Exec.{Exec, pure, lift, statement, query, map_error, ◌>>=◌}
use tolo_tenant_management.Repository.{get, or_missing, expect_one_row}

abbrev pub state_of : InvitationRow → State
state_of i =
    if is_some i.accepted_at
    then Invitation.accepted
    else if is_some i.revoked_at
    then Invitation.revoked
    else Invitation.pending

unfoldable pub invitation_of : InvitationView → Result Invitation
invitation_of v = Failure.◌>>=◌ (wrapped (Role.parse v.row.tenant_role)) λ role.
    Failure.◌>>=◌ (wrapped (DisplayName.parse v.row.display_name)) λ name. ok (record {
      id = v.row.id;
      public_id = v.row.public_id;
      tenant_id = v.row.tenant_id;
      tenant_public_id = v.public_id;
      role = role;
      display_name = name;
      expires_at = v.row.expires_at;
      state = state_of v.row;
    })

unfoldable pub map_invitation_constraint_error : Err → Err
unfolding as_pg
map_invitation_constraint_error e = elim (as_pg e) [
  | none ↦ wrap e
  | some p ↦
      if str_eq p.code "23505" && str_eq p.constraint "tenant_invitations_public_id_key"
      then sentinel invitation_public_id_exists
      else wrap e
]

abbrev pub row_of : Invitation → Hash → Db → InvitationRow
row_of i token_hash d = record {
  id = i.id;
  public_id = i.public_id;
  tenant_id = i.tenant_id;
  tenant_role = Role.to_string i.role;
  display_name = i.display_name.value;
  token_hash = token_hash;
  expires_at = i.expires_at;
  created_at = d.now;
  accepted_at = none;
  accepted_by = none;
  revoked_at = none;
}

unfoldable pub create_invitation : Invitation → Hash → Exec (Unit {0})
unfolding map_invitation_constraint_error
create_invitation i token_hash = do
  _ ←
      map_error map_invitation_constraint_error
        (statement (λ d. Sql.insert (row_of i token_hash d) d))
  pure tt

unfoldable pub list_open_invitations : String → ℕ → Exec (List Invitation)
unfolding invitation_of
list_open_invitations tenant_id now = do
  rows ← map_error wrap (query (Sql.list tenant_id now))
  lift (traverse invitation_of rows)

unfoldable pub find_invitation : (InvitationRow → Bool) → Exec Invitation
unfolding invitation_of
find_invitation here = do
  row ← map_error (or_missing invitation_not_found wrap) (get (Sql.get here))
  lift (invitation_of row)

unfoldable pub find_invitation_for_update : String → String → Exec Invitation
unfolding find_invitation
find_invitation_for_update tenant_id public_id =
    find_invitation (Sql.has_public_id tenant_id public_id)

unfoldable pub find_invitation_by_token_for_update : String → Hash → Exec Invitation
unfolding find_invitation
find_invitation_by_token_for_update tenant_id token_hash =
    find_invitation (Sql.has_token tenant_id token_hash)

unfoldable pub mark_invitation_accepted : String → String → ℕ → Exec (Unit {0})
mark_invitation_accepted id user_id at = do
  rows ← map_error wrap (statement (Sql.mark_accepted id user_id at))
  expect_one_row rows invitation_not_found

unfoldable pub mark_invitation_revoked : String → ℕ → Exec (Unit {0})
mark_invitation_revoked id at = do
  rows ← map_error wrap (statement (Sql.mark_revoked id at))
  expect_one_row rows invitation_not_found
