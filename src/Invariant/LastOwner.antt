-- ===== src/Invariant/LastOwner.antt =====
-- `keepAnotherOwner` of internal/relation/application/relation.go: where it lets a write pass, the
-- member may be unseated.
use tolo_tenant_management.Prelude.{
  ℕ, ◌≡◌, refl, String, false, inl, inr, arith, leb, str_eq, Bool-cases,
}
use tolo_tenant_management.Text.{head_code, head-differs}
use tolo_tenant_management.Failure.{is, membership_not_found}
use tolo_tenant_management.Domain.Role
use tolo_tenant_management.Domain.Role.{Role, is_owner, declared}
use tolo_tenant_management.Store.Memberships.{count_owners}
use tolo_tenant_management.Exec.Triple.{
  Triple, Triple-statement, Triple-handle, Triple-pure, Triple-fail, Triple-bind, Triple-map_error,
}
use tolo_tenant_management.Repository.Memberships.{count_tenant_owners}
use tolo_tenant_management.RelationService.Gates.{keep_another_owner, keep_owner, not_last}
use tolo_tenant_management.Invariant.{IsSound}
use tolo_tenant_management.Invariant.Memberships.{
  absent-Unseatable, staff-Unseatable, several-Unseatable,
}
use tolo_tenant_management.Invariant.Lookup.{Found, Triple-find_tenant_role}
use tolo_tenant_management.Invariant.Owners.{Replaceable}

begins : (n : ℕ) → head_code (Role.to_string (Role.other n)) ≡ 82
unfolding Role.to_string
begins n = refl

not_owner : (r : Role) → is_owner r ≡ false → str_eq (Role.to_string r) "owner" ≡ false
unfolding Role.to_string
not_owner Role.owner h = ground arith
not_owner Role.unspecified h = refl
not_owner Role.staff h = refl
not_owner Role.admin h = refl
not_owner (Role.other n) h =
    head-differs (Role.to_string (Role.other n)) "owner" (omega (arith, begins n))

module _ (tenant_id user_id : String) where
  counted :
      (n : ℕ)
      → Triple
          (λ d. IsSound d × (n ≡ count_owners tenant_id d))
          (not_last n)
          (λ _. Replaceable tenant_id user_id)
          (λ _. IsSound)
  counted n = elim (Bool-cases (leb n 1)) [
    | inl e ↦ rw e (Triple-fail _ (λ d h. h.0))
    | inr e ↦ rw e (
        Triple-pure tt
          (λ d h. (h.0, several-Unseatable tenant_id user_id d h.0 (ground (arith, h.1)))))
  ]

  Triple-keep_owner :
      (role : Role)
      → Triple
          (Found IsSound tenant_id user_id role)
          (keep_owner tenant_id role)
          (λ _. Replaceable tenant_id user_id)
          (λ _. IsSound)
  unfolding count_tenant_owners
  Triple-keep_owner role = elim (Bool-cases (is_owner role)) [
    | inr e ↦ rw e (
        Triple-pure tt
          (λ d h. (h.0, staff-Unseatable tenant_id user_id d h.0 _ h.1 (not_owner role e))))
    | inl e ↦ rw e (
        Triple-bind {Q = λ n d. IsSound d × (n ≡ count_owners tenant_id d)} _ _
          (Triple-map_error {R = λ _. IsSound} _ _
            (Triple-statement _ (λ d h. (h.0, refl)) (λ x d h. h.0) (λ x d h. h.0)) (λ e d h. h))
          (λ n. counted n))
  ]

  -- Where it returns nil, the member owns nothing, or not alone.
  pub Triple-keep_another_owner :
      Triple IsSound
        (keep_another_owner tenant_id user_id)
        (λ _. Replaceable tenant_id user_id)
        (λ _. IsSound)
  unfolding keep_another_owner
  Triple-keep_another_owner =
      Triple-handle _ _ _ (Triple-find_tenant_role IsSound tenant_id user_id) Triple-keep_owner
        (λ e. elim (Bool-cases (is e membership_not_found)) [
          | inl i ↦
              rw i
                (Triple-pure tt (λ d h. (h.0, absent-Unseatable tenant_id user_id d h.0 (h.1 i))))
          | inr i ↦ rw i (Triple-fail e (λ d h. h.0))
        ])
