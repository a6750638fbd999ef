-- ===== src/Guarantees/Joined.antt =====
-- What AddTenantMember and MarkInvitationAccepted of internal/relation/infra/db leave of the tables.
use tolo_tenant_management.Prelude.{
  any, any-rewrite_found, ◌&&◌, ℕ, ◌≡◌, refl, ◌==◌, String, true, false, some, inl, inr, List, [],
  ◌∷◌, arith, All, All-rewrite, rewrite, find, str_eq, str_eq_refl, Option-cases, Bool-cases,
}
use tolo_tenant_management.Context.{Context}
use tolo_tenant_management.Domain.Role
use tolo_tenant_management.Domain.Role.{Role}
use tolo_tenant_management.Domain.DisplayName.{DisplayName}
use tolo_tenant_management.Store.{InvitationRow, Db}
use tolo_tenant_management.Store.Checked.{Left, checked-Left}
use tolo_tenant_management.Store.Tenants.{is_some}
use tolo_tenant_management.Store.Memberships as Sql
use tolo_tenant_management.Store.Memberships.{role_of}
use tolo_tenant_management.Store.Invitations as InvitationSql
use tolo_tenant_management.Exec.Triple.{
  Triple, Triple-bind, Triple-lift, Triple-map_error, Triple-statement, Triple-conseq, Triple-pure,
  Triple-fail,
}
use tolo_tenant_management.Repository.Memberships as Memberships
use tolo_tenant_management.Repository.Invitations as Invitations
use tolo_tenant_management.Invariant.Reads.{Keeps-find_membership}
use tolo_tenant_management.Guarantees.{Any}

-- the user holds the role in the tenant
abbrev pub Holds : String → String → Role → Db → Type 0
Holds tenant_id user_id role x = role_of tenant_id user_id x ≡ some (Role.to_string role)

module _ (tenant_id user_id : String) (role : Role) where
  stored :
      (name : DisplayName) (x : Db)
      → Left
          (λ _. Holds tenant_id user_id role)
          Any
          (Sql.insert (Memberships.new_row tenant_id user_id role name x) x)
  unfolding Sql.insert role_of
  stored name x =
      let m = Memberships.new_row tenant_id user_id role name x in
      checked-Left (λ _. Holds tenant_id user_id role) Any (Sql.insert_checks m x) 1
        (record x { memberships = m ∷ x.memberships }) x (λ p. tt)
        (λ p. rw (role_of, str_eq_refl tenant_id, str_eq_refl user_id) refl)

  pub Triple-add_tenant_member :
      (ctx : Context) (name : DisplayName)
      → Triple
          (λ _. Unit)
          (Memberships.add_tenant_member ctx tenant_id user_id role name)
          (λ _. Holds tenant_id user_id role)
          Any
  unfolding Memberships.add_tenant_member
  Triple-add_tenant_member ctx name =
      Triple-bind {Q = λ _ _. Unit} _ _ (Triple-lift _ (λ a e x h. tt) (λ e k x h. tt)) (λ _.
        Triple-bind {Q = λ _. Holds tenant_id user_id role} _ _
          (Triple-map_error {R = Any} _ _
            (Triple-statement _ (λ x h. stored name x) (λ f x h. tt) (λ f x h. tt)) (λ e x h. tt))
          (λ _.
            Triple-conseq _ (λ x h. h) (λ m x h. h) (λ e x h. tt)
              (Keeps-find_membership {P = Holds tenant_id user_id role} ctx tenant_id user_id)))

-- the invitation is there, and each of its rows says that it was accepted
abbrev pub IsUsed : String → Db → Type 0
IsUsed id x =
    (any (λ o. str_eq o.id id && is_some o.accepted_at) x.invitations ≡ true)
    × All (λ o. str_eq o.id id ≡ true → is_some o.accepted_at ≡ true) x.invitations

All-any {ℓ} : {A : Type ℓ} (xs : List A) → All (λ (x : A). Unit {0}) xs
All-any [] = tt
All-any (x ∷ xs) = (tt, All-any xs)

module _ (P : Db → Type 0)
    (stays : (d : Db) (is : List InvitationRow) → P d → P (record d { invitations = is })) where
  marked :
      (id user_id : String) (at : ℕ) (d : Db)
      → P d
      → Left
          (λ rows x. P x × ((rows == 0) ≡ false → IsUsed id x))
          Any
          (InvitationSql.mark_accepted id user_id at d)
  unfolding InvitationSql.mark_accepted
  marked id user_id at d h = elim (Option-cases (find (λ i. str_eq i.id id) d.invitations)) [
    | inl e ↦ rw (e, InvitationSql.update) (h, λ k. cc)
    | inr (i, e) ↦
        let change =
          λ (o : InvitationRow). record o { accepted_at = some at; accepted_by = some user_id } in
        let there = λ (o : InvitationRow). str_eq o.id id in
        rw (e, InvitationSql.update)
          (checked-Left (λ rows x. P x × ((rows == 0) ≡ false → IsUsed id x)) Any
            (InvitationSql.closed_checks (change i)) 1
            (record d { invitations = rewrite there change d.invitations }) d (λ p. tt)
            (λ p. (
              stays d (rewrite there change d.invitations) h,
              λ k. (
                any-rewrite_found there (λ o. str_eq o.id id && is_some o.accepted_at) change
                    (λ o m. ground (arith, m)) d.invitations e,
                All-rewrite {P = λ (o : InvitationRow). Unit {0}} there change (λ o m u same. refl)
                    (λ o m u same. absurd (ground (arith, m, same))) d.invitations
                    (All-any d.invitations),
              ),
            )))
  ]

  pub Triple-mark_accepted :
      (id user_id : String) (at : ℕ)
      → Triple P (Invitations.mark_invitation_accepted id user_id at) (λ _ x. P x × IsUsed id x) Any
  unfolding Invitations.mark_invitation_accepted
  Triple-mark_accepted id user_id at =
      Triple-bind {Q = λ rows x. P x × ((rows == 0) ≡ false → IsUsed id x)} _ _
        (Triple-map_error {R = Any} _ _
          (Triple-statement _ (marked id user_id at) (λ f x h. tt) (λ f x h. tt)) (λ e x h. tt))
        (λ rows. elim (Bool-cases (rows == 0)) [
          | inl e ↦ rw e (Triple-fail _ (λ x h. tt))
          | inr e ↦ rw e (Triple-pure tt (λ x h. (h.0, h.1 refl)))
        ])
