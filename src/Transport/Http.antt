-- ===== src/Transport/Http.antt =====
-- internal/relation/infra/httpapi/handler.go: the memberships of one user in one tenant, over plain
-- HTTP. The context of a request carries no claims; net/http and encoding/json write the response.
pub mod Boundary
use tolo_tenant_management.Prelude.{
  ℕ, String, Option, none, some, List, [], ◌∷◌, map, ◌||◌, if◌then◌else◌,
}
use tolo_tenant_management.Text.{trim_space, is_empty}
use tolo_tenant_management.Failure.{
  Err, is, Result, ok, err, tenant_not_found, relation_tenant_not_found, canceled,
  deadline_exceeded,
}
use tolo_tenant_management.Context.{Context, with_tenant_public_id}
use tolo_tenant_management.Domain.Role
use tolo_tenant_management.Domain.Membership.{Membership, EventRole}
use tolo_tenant_management.Exec.{World}
use tolo_tenant_management.RelationService.Members

pub record EventRoleBody : Type 0 where
  pub event_id : String
  pub role : String

pub record MembershipBody : Type 0 where
  pub user_id : String
  pub tenant_id : String
  pub tenant_role : String
  pub event_roles : List EventRoleBody

-- `err.Error()` is the text of an error, which is not kept.
pub data Body : Type 0 where
  memberships : List MembershipBody → Body
  error : String → Body
  error_text : Err → Body

-- What a handler writes, if anything, and the errors that it logs.
pub record Reply : Type 0 where
  pub written : Option (ℕ × Body)
  pub logged : List Err

abbrev pub write_json : ℕ → Body → Reply
write_json status body = record { written = some (status, body); logged = [] }

abbrev pub event_role_body : EventRole → EventRoleBody
event_role_body r = record { event_id = r.event_public_id; role = Role.to_string r.role }

abbrev pub membership_body : Membership → MembershipBody
membership_body m = record {
  user_id = m.user_id;
  tenant_id = m.tenant_public_id;
  tenant_role = Role.to_string m.tenant_role;
  event_roles = map event_role_body m.event_roles;
}

unfoldable pub memberships_body : List Membership → List MembershipBody
memberships_body = map membership_body

unfoldable pub write_error : Err → Reply
write_error e =
    if is e tenant_not_found || is e relation_tenant_not_found
    then write_json 404 (error_text e)
    else if is e canceled
    then record { written = none; logged = [] }
    else if is e deadline_exceeded
    then write_json 504 (error "request timed out")
    else record { written = some (500, error "internal error"); logged = e ∷ [] }

unfoldable pub reply : Result (List Membership) → Reply
unfolding memberships_body write_error
reply (ok found) = write_json 200 (memberships (memberships_body found))
reply (err e) = write_error e

unfoldable pub list_memberships : Context → String → String → World → Reply × World
unfolding trim_space reply
list_memberships ctx tenant_id user_id w =
    let tenant_public_id = trim_space tenant_id in
    let user = trim_space user_id in
    if is_empty tenant_public_id
    then (write_json 400 (error "tenant_id is required"), w)
    else if is_empty user
    then (write_json 400 (error "user_id is required"), w)
    else let (r, w') =
        Members.list_memberships (with_tenant_public_id ctx tenant_public_id) "" user w in
      (reply r, w')
