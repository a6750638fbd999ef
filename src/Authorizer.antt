-- ===== src/Authorizer.antt =====
-- internal/relation/application/authorizer.go.
use tolo_tenant_management.Prelude.{String, Bool, false, not, Option, none, some, if◌then◌else◌}
use tolo_tenant_management.Failure.{
  sentinel, is, subject_missing, membership_not_found, relation_permission_denied,
}
use tolo_tenant_management.Context.{Context, subject_from_context}
use tolo_tenant_management.Domain.Role.{Role, grants}
use tolo_tenant_management.Exec.{Exec, pure, fail, handle, ◌>>=◌}
use tolo_tenant_management.Repository.Memberships.{find_tenant_role_for_share}

-- `none` is the answer that the caller is no member.
unfoldable pub current_role : Context → String → Exec (Option Role)
current_role ctx tenant_id = elim (subject_from_context ctx) [
  | none ↦ fail (sentinel subject_missing)
  | some subject ↦
      handle (find_tenant_role_for_share tenant_id subject) (λ role. pure (some role))
        (λ e. if is e membership_not_found then pure none else fail e)
]

abbrev pub issues : Option Role → String → Bool
issues none scope = false
issues (some role) scope = grants role scope

unfoldable pub allowed : Context → String → String → Exec Bool
unfolding current_role
allowed ctx tenant_id scope = do role ← current_role ctx tenant_id; pure (issues role scope)

unfoldable pub require : Context → String → String → Exec (Unit {0})
unfolding allowed
require ctx tenant_id scope = do
  permitted ← allowed ctx tenant_id scope
  if not permitted then fail (sentinel relation_permission_denied) else pure tt
