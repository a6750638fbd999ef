-- ===== src/Invariant/Owners.antt =====
-- The writes that need an owner: what `keepAnotherOwner` checks before them, and what `AddOwner`
-- leaves behind.
use tolo_tenant_management.Prelude.{
  ℕ, ◌<◌, ◌≡◌, String, true, ◌⊎◌, arith, str_eq, str_eq_refl, count_of, ◌∷◌,
}
use tolo_tenant_management.Failure.{Err, Sentinel}
use tolo_tenant_management.Context.{Context}
use tolo_tenant_management.Domain.Role
use tolo_tenant_management.Domain.Role.{Role, is_owner}
use tolo_tenant_management.Domain.DisplayName.{DisplayName}
use tolo_tenant_management.Domain.Tenant.{Tenant}
use tolo_tenant_management.Store.{Db}
use tolo_tenant_management.Store.Checked.{checked-Left, Left, kept}
use tolo_tenant_management.Store.Memberships as Sql
use tolo_tenant_management.Store.Memberships.{is_owner_of, role_of}
use tolo_tenant_management.Exec.Triple.{
  Triple, Keeps, Triple-statement, Triple-pure, Triple-fail, Triple-lift, Triple-conseq, Triple-if,
  Triple-bind, Triple-map_error, Keeps-lift, keeps_rules,
}
use tolo_tenant_management.Repository.{expect_one_row}
use tolo_tenant_management.Repository.Memberships as Memberships
use tolo_tenant_management.Repository.Tenants as Tenants
use tolo_tenant_management.Invariant.{IsSound}
use tolo_tenant_management.Invariant.Tenants.{mark_owned-IsSound}
use tolo_tenant_management.Invariant.Memberships.{
  insert-IsSound, Unseatable, set_role-IsSound, delete-IsSound, stored-IsSound,
}
use tolo_tenant_management.Invariant.Reads.{Keeps-find_membership}

-- a sound database in which a tenant has an owner
abbrev pub Owned : String → Db → Type 0
Owned tenant_id d = IsSound d × (0 < count_of (is_owner_of tenant_id) d.memberships)

abbrev Sound : Err → Db → Type 0
Sound _ d = IsSound d

abbrev Done : {A : Type 0} → A → Db → Type 0
Done _ d = IsSound d

module _ (ctx : Context) (tenant_id user_id : String) where
  owner_counted :
      (name : DisplayName) (d : Db)
      → 0
        < count_of
            (is_owner_of tenant_id)
            (Memberships.new_row tenant_id user_id Role.owner name d ∷ d.memberships)
  unfolding Role.to_string
  owner_counted name d = rw (str_eq_refl tenant_id) (omega arith)

  inserted-Owned :
      (name : DisplayName) (d : Db)
      → IsSound d
      → Left
          (λ _. Owned tenant_id)
          Sound
          (Sql.insert (Memberships.new_row tenant_id user_id Role.owner name d) d)
  unfolding Sql.insert
  inserted-Owned name d s =
      let m = Memberships.new_row tenant_id user_id Role.owner name d in
      checked-Left (λ _. Owned tenant_id) Sound (Sql.insert_checks m d) 1
        (record d { memberships = m ∷ d.memberships }) d (λ p. s)
        (λ p. (stored-IsSound m d p s, owner_counted name d))

  pub Triple-add_owner :
      (name : DisplayName)
      → Triple IsSound
          (Memberships.add_owner ctx tenant_id user_id name)
          (λ _. Owned tenant_id)
          Sound
  unfolding Memberships.add_owner Memberships.add_tenant_member
  Triple-add_owner name =
      Triple-bind {Q = λ _. Owned tenant_id} _ _
        (Triple-bind {Q = Done} _ _ (Keeps-lift _) (λ _.
          Triple-bind {Q = λ _. Owned tenant_id} _ _
            (Triple-map_error {R = Sound} _ _
              (Triple-statement _ (inserted-Owned name) (λ x d s. s)
                (λ x d s. insert-IsSound _ d s))
              (λ e d h. h))
            (λ _.
              Triple-conseq _ (λ d h. h) (λ m d h. h) (λ e d h. h.0)
                (Keeps-find_membership {P = Owned tenant_id} ctx tenant_id user_id))))
        (λ _. Triple-pure tt (λ d h. h))

one_row : (rows : ℕ) (missing : Sentinel) → Keeps IsSound (expect_one_row rows missing)
one_row rows missing = search keeps_rules

pub Triple-mark_tenant_owned :
    (t : Tenant) → Triple (Owned t.id) (Tenants.mark_tenant_owned t) Done Sound
unfolding Tenants.mark_tenant_owned
Triple-mark_tenant_owned t = Triple-if _ _ _ (Triple-fail _ (λ d h. h.0)) (
    Triple-bind {Q = Done} _ _
      (Triple-map_error {R = Sound} _ _
        (Triple-statement _ (λ d h. kept IsSound _ (mark_owned-IsSound t.id _ d h.1 h.0))
          (λ x d h. h.0) (λ x d h. mark_owned-IsSound t.id _ d h.1 h.0))
        (λ e d h. h))
      (λ rows. one_row rows _))

-- a sound database in which a member may be unseated
abbrev pub Replaceable : String → String → Db → Type 0
Replaceable tenant_id user_id d = IsSound d × Unseatable tenant_id user_id d

module _ (tenant_id user_id : String) where
  pub Triple-change_tenant_role :
      (ctx : Context) (role : Role)
      → Triple
          (λ d.
            IsSound d
            × ((str_eq (Role.to_string role) "owner" ≡ true) ⊎ Unseatable tenant_id user_id d))
          (Memberships.change_tenant_role ctx tenant_id user_id role)
          Done
          Sound
  unfolding Memberships.change_tenant_role
  Triple-change_tenant_role ctx role =
      Triple-bind _ _ (Triple-lift _ (λ a e d h. h) (λ x e d h. h.0)) (λ _.
        Triple-bind {Q = Done} _ _
          (Triple-map_error {R = Sound} _ _
            (Triple-statement _
              (λ d h. kept IsSound _ (set_role-IsSound tenant_id user_id _ d h.1 h.0))
              (λ x d h. h.0) (λ x d h. set_role-IsSound tenant_id user_id _ d h.1 h.0))
            (λ e d h. h))
          (λ rows.
            Triple-bind {Q = Done} _ _ (one_row rows _)
              (λ _. Keeps-find_membership ctx tenant_id user_id)))

  pub Triple-revoke_tenant_membership :
      Triple
        (Replaceable tenant_id user_id)
        (Memberships.revoke_tenant_membership tenant_id user_id)
        Done
        Sound
  unfolding Memberships.revoke_tenant_membership
  Triple-revoke_tenant_membership =
      Triple-bind {Q = Done} _ _
        (Triple-map_error {R = Sound} _ _
          (Triple-statement _ (λ d h. kept IsSound _ (delete-IsSound tenant_id user_id d h.1 h.0))
            (λ x d h. h.0) (λ x d h. delete-IsSound tenant_id user_id d h.1 h.0))
          (λ e d h. h))
        (λ rows. one_row rows _)
