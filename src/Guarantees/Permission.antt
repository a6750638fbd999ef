-- ===== src/Guarantees/Permission.antt =====
-- What the authorizer's verdict tells of the tables: internal/relation/application/authorizer.go and
-- `withCurrentPermission`.
use tolo_tenant_management.Prelude.{
  ◌≡◌, String, true, not, Option, none, some, inl, inr, arith, Option-cases,
}
use tolo_tenant_management.Context.{Context, subject_from_context}
use tolo_tenant_management.Domain.Role
use tolo_tenant_management.Domain.Role.{Role, grants, scope_tenant_write}
use tolo_tenant_management.Store.{Db}
use tolo_tenant_management.Store.Memberships.{role_of}
use tolo_tenant_management.Exec.{Exec}
use tolo_tenant_management.Exec.Triple.{Triple-handle, Triple-pure, Triple-fail, Triple-if}
use tolo_tenant_management.Authorizer.{current_role, issues, allowed, require}
use tolo_tenant_management.Transaction.Atomic.{inside}
use tolo_tenant_management.RelationService.Gates.{permitted_write, with_current_permission}
use tolo_tenant_management.Invariant.Lookup.{Triple-find_tenant_role}
use tolo_tenant_management.Invariant.Reads.{Keeps-lock}
use tolo_tenant_management.Guarantees.{
  Proves, Reads, Proves-known, Proves-next, Proves-run, Reads-bind, Reads-pure, Reads-unless,
  Reads-keeps,
}

-- the caller's stored role in a tenant has the scope of administrative writes
abbrev pub MayWrite : Context → String → Db → Type 0
MayWrite ctx tenant_id d =
    (subject : String) × (role : Role) × (subject_from_context ctx ≡ some subject)
    × (role_of tenant_id subject d ≡ some (Role.to_string role))
    × (grants role scope_tenant_write ≡ true)

module _ (d : Db) where
  -- what the answer of CurrentRole says
  abbrev Held : Context → String → Option Role → Type 0
  Held ctx tenant_id none = Unit
  Held ctx tenant_id (some role) =
      (subject : String) × (subject_from_context ctx ≡ some subject)
      × (role_of tenant_id subject d ≡ some (Role.to_string role))

  may_write :
      (ctx : Context) (tenant_id : String) (role : Option Role)
      → Held ctx tenant_id role
      → issues role scope_tenant_write ≡ true
      → MayWrite ctx tenant_id d
  may_write ctx tenant_id none h g = ground arith
  may_write ctx tenant_id (some role) (subject, e, held) g = (subject, role, e, held, g)

module _ {d : Db} where
  Reads-current_role :
      (ctx : Context) (tenant_id : String)
      → Reads d (current_role ctx tenant_id) (Held d ctx tenant_id)
  unfolding current_role
  Reads-current_role ctx tenant_id = elim (Option-cases (subject_from_context ctx)) [
    | inl e ↦ rw (e, current_role) (Triple-fail _ (λ x h. tt))
    | inr (subject, e) ↦
        rw (e, current_role)
          (Triple-handle _ _ _ (Triple-find_tenant_role (λ x. x ≡ d) tenant_id subject)
            (λ role. Triple-pure _ (λ x h. (h.0, (subject, e, rw h.0 at h.1))))
            (λ x.
              Triple-if _ _ _ (Triple-pure none (λ y h. (h.0, tt))) (Triple-fail x (λ y h. tt))))
  ]

  pub Reads-allowed :
      (ctx : Context) (tenant_id : String)
      → Reads d
          (allowed ctx tenant_id scope_tenant_write)
          (λ permitted. permitted ≡ true → MayWrite ctx tenant_id d)
  unfolding allowed
  Reads-allowed ctx tenant_id =
      Reads-bind _ _ (Reads-current_role ctx tenant_id)
        (λ role h. Reads-pure _ (may_write d ctx tenant_id role h))

  Reads-require :
      (ctx : Context) (tenant_id : String)
      → Reads d (require ctx tenant_id scope_tenant_write) (λ _. MayWrite ctx tenant_id d)
  unfolding require
  Reads-require ctx tenant_id =
      Reads-bind _ _ (Reads-allowed ctx tenant_id) (λ permitted k.
        Reads-unless (not permitted) _ _ (λ n. Reads-pure tt (k (ground (arith, n)))))

  Proves-permitted_write :
      {A : Type 0} (ctx : Context) (tenant_id : String) (write : Context → Exec A)
      → Proves d (permitted_write tenant_id write ctx) (MayWrite ctx tenant_id d)
  unfolding permitted_write
  Proves-permitted_write ctx tenant_id write =
      Proves-next _ _ (Reads-keeps _ (Keeps-lock tenant_id))
        (λ _ _. Proves-next _ _ (Reads-require ctx tenant_id) (λ _ k. Proves-known (write ctx) k))

  pub Proves-with_current_permission :
      {A : Type 0} (ctx : Context) (tenant_id : String) (write : Context → Exec A)
      → Proves d (with_current_permission ctx tenant_id write) (MayWrite ctx tenant_id d)
  unfolding with_current_permission subject_from_context
  Proves-with_current_permission ctx tenant_id write =
      Proves-run ctx (permitted_write tenant_id write) (Proves-permitted_write ctx tenant_id write)
        (Proves-permitted_write (inside ctx) tenant_id write)
