-- ===== src/Guarantees/Removal.antt =====
-- RevokeRole of internal/relation/application/relation.go in the scope of a tenant: what a removal
-- that succeeds leaves.
use tolo_tenant_management.Prelude.{
  ◌≡◌, refl, ◌==◌, String, false, not, ◌&&◌, none, some, inl, inr, arith, All, All-rejected, str_eq,
  any, count-none, Bool-cases,
}
use tolo_tenant_management.Failure.{ok}
use tolo_tenant_management.Text.{is_empty}
use tolo_tenant_management.Context.{Context}
use tolo_tenant_management.Domain.Role.{scope_tenant_write}
use tolo_tenant_management.Store.{TenantRow, EventRoleRow, Db}
use tolo_tenant_management.Store.Checked.{Left}
use tolo_tenant_management.Store.Tenants.{by_public_id}
use tolo_tenant_management.Store.Memberships as Sql
use tolo_tenant_management.Store.Memberships.{role_of, is_member}
use tolo_tenant_management.Store.Memberships.Roster.{
  removed, Same, put, roster, writes_refine_roster,
}
use tolo_tenant_management.Exec.{World}
use tolo_tenant_management.Exec.Triple.{
  Keeps, Triple-bind, Triple-map_error, Triple-statement, Triple-pure, Triple-fail, Triple-conseq,
  Triple-if, keeps_rules,
}
use tolo_tenant_management.Transaction.Atomic.{inside}
use tolo_tenant_management.Repository.Memberships as Memberships
use tolo_tenant_management.RelationService.Gates.{
  keep_another_owner, permitted_write, with_current_permission,
}
use tolo_tenant_management.RelationService.Members.{remove_member, revoke_in_tenant, revoke_role}
use tolo_tenant_management.Invariant.Reads.{Keeps-lock, Keeps-require, Keeps-find_tenant_role}
use tolo_tenant_management.Guarantees.{
  Any, Leads, led, Leads-next, Leads-unless, Leads-run, Reads-keeps,
}
use tolo_tenant_management.Guarantees.Lookup.{tenant_of-eq_ok}
use tolo_tenant_management.Guarantees.Admission.{Reads-writable_tenant}

-- The user had a role in the tenant and has none, nor one on any of its events; all else is kept.
abbrev pub Gone : String → String → Db → Db → Type 0
Gone tenant_id user_id before after =
    ¬ (role_of tenant_id user_id before ≡ none)
    × Same (roster after) (put tenant_id user_id none (roster before))
    × All (λ r. (str_eq r.tenant_id tenant_id && str_eq r.user_id user_id) ≡ false)
        after.event_roles

module _ (tenant_id user_id : String) (d : Db) where
  deleted :
      Left
        (λ rows x. (rows == 0) ≡ false → Gone tenant_id user_id d x)
        Any
        (Sql.delete tenant_id user_id d)
  unfolding Sql.delete
  deleted k =
      let there = any (is_member tenant_id user_id) d.memberships in
      let map_ = writes_refine_roster (removed tenant_id user_id) d in
      (
        (λ h. ground (arith, k, map_.0.0 h)),
        map_.1,
        elim (Bool-cases (any (is_member tenant_id user_id) d.memberships)) [
          | inl e ↦ rw e (
              All-rejected
                (λ (r : EventRoleRow). str_eq r.tenant_id tenant_id && str_eq r.user_id user_id)
                d.event_roles)
          | inr e ↦
              absurd (ground (arith, k, count-none (is_member tenant_id user_id) d.memberships e))
        ],
      )

  Leads-revoke :
      Leads d
        (Memberships.revoke_tenant_membership tenant_id user_id)
        (λ _. Gone tenant_id user_id d)
  unfolding Memberships.revoke_tenant_membership
  Leads-revoke =
      Triple-bind {Q = λ rows x. (rows == 0) ≡ false → Gone tenant_id user_id d x} _ _
        (Triple-map_error {R = Any} _ _
          (Triple-statement _ (λ x same. rw same deleted) (λ f x h. tt) (λ f x h. tt))
          (λ e x h. tt))
        (λ rows. elim (Bool-cases (rows == 0)) [
          | inl e ↦ rw e (Triple-fail _ (λ x h. tt))
          | inr e ↦ rw e (Triple-pure tt (λ x h. h refl))
        ])

Keeps-keep_another_owner :
    {P : Db → Type 0} (tenant_id user_id : String) → Keeps P (keep_another_owner tenant_id user_id)
unfolding keep_another_owner Memberships.count_tenant_owners
Keeps-keep_another_owner tenant_id user_id = search (keeps_rules, Keeps-find_tenant_role)

module _ (tenant_id user_id : String) {d : Db} where
  Leads-permitted :
      (ctx : Context)
      → Leads d
          (permitted_write tenant_id (remove_member tenant_id user_id) ctx)
          (λ _. Gone tenant_id user_id d)
  unfolding permitted_write remove_member
  Leads-permitted ctx = Leads-next _ _ (Reads-keeps _ (Keeps-lock tenant_id)) (λ _ _.
      Leads-next _ _ (Reads-keeps _ (Keeps-require ctx tenant_id scope_tenant_write)) (λ _ _.
        Leads-next _ _ (Reads-keeps _ (Keeps-keep_another_owner tenant_id user_id))
          (λ _ _. Leads-revoke tenant_id user_id d)))

-- what a removal that succeeds was of
abbrev pub Removed : String → String → Db → Db → Type 0
Removed tenant_public_id user_id before after =
    (row : TenantRow) × (by_public_id tenant_public_id before ≡ some row)
    × Gone row.id user_id before after

module _ (ctx : Context) (tenant_public_id user_id : String) {d : Db} where
  Leads-revoke_in_tenant :
      Leads d
        (revoke_in_tenant ctx tenant_public_id user_id)
        (λ _. Removed tenant_public_id user_id d)
  unfolding revoke_in_tenant with_current_permission
  Leads-revoke_in_tenant = Leads-next _ _ (Reads-writable_tenant ctx tenant_public_id) (λ t h.
      let (row, e, made) = h.0 in
      Triple-conseq _ (λ x h. h)
        (λ _ x gone. (row, e, rw (tenant_of-eq_ok row t ctx made).0 at gone)) (λ e x h. h)
        (Leads-run ctx _ (Leads-permitted t.id user_id ctx)
          (Leads-permitted t.id user_id (inside ctx))))

  Leads-revoke_role :
      Leads d
        (revoke_role ctx user_id tenant_public_id "")
        (λ _. Removed tenant_public_id user_id d)
  unfolding revoke_role
  Leads-revoke_role = Leads-unless (is_empty user_id) _ _ (λ _.
      Leads-unless (not (is_empty tenant_public_id) && not (is_empty "")) _ _ (λ _.
        Triple-if (not (is_empty tenant_public_id)) _ _ Leads-revoke_in_tenant
          (Triple-fail _ (λ x h. tt))))

-- A removal of a user from a tenant that succeeds was of a user who had a role in the stored tenant
-- of that public ID; the user has no role in it afterwards, nor on any of its events, and every other
-- membership of this and of other tenants has the role that it had.
pub removal_is_complete :
    (ctx : Context) (tenant_public_id user_id : String) (w w' : World)
    → revoke_role ctx user_id tenant_public_id "" w ≡ (ok tt, w')
    → Removed tenant_public_id user_id w.db w'.db
removal_is_complete ctx tenant_public_id user_id w w' h =
    led {Q = λ _ x. Removed tenant_public_id user_id w.db x} _
      (Leads-revoke_role ctx tenant_public_id user_id) h
