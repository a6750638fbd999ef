-- ===== src/Invariant/Lookup.antt =====
-- `FindTenantRoleForShare` of internal/relation/infra/db/membership.go: what its answer tells.
use tolo_tenant_management.Prelude.{
  ◌≡◌, refl, sym, ap, ◌∙◌, String, true, false, none, some, inl, inr, arith, str_eq, Bool-cases,
  Option-cases, find,
}
use tolo_tenant_management.Failure.{
  Err, sentinel, wrap, is, no_rows, membership_not_found, ok, err, wrapped, wrapped-eq_ok,
}
use tolo_tenant_management.Domain.Enum.{name-parse_among}
use tolo_tenant_management.Domain.Role
use tolo_tenant_management.Domain.Role.{Role, is_owner, declared}
use tolo_tenant_management.Store.{Db}
use tolo_tenant_management.Store.Memberships.{role_of}
use tolo_tenant_management.Store.Checked.{Left}
use tolo_tenant_management.Exec.{Fault, raised, refused, cancelled, timed_out, broken, lost}
use tolo_tenant_management.Exec.Triple.{
  Triple, Triple-statement, Triple-lift, Triple-bind, Triple-map_error,
}
use tolo_tenant_management.Repository.{or_missing}
use tolo_tenant_management.Repository.Memberships.{find_tenant_role_for_share}

-- a fault is none of the errors that the program makes itself
raised-no_rows : (x : Fault) → is (raised x) no_rows ≡ false
unfolding is
raised-no_rows (refused e) = refl
raised-no_rows cancelled = refl
raised-no_rows timed_out = refl
raised-no_rows (broken m) = refl
raised-no_rows (lost x) = raised-no_rows x

raised-not_found : (x : Fault) → is (raised x) membership_not_found ≡ false
unfolding is
raised-not_found (refused e) = refl
raised-not_found cancelled = refl
raised-not_found timed_out = refl
raised-not_found (broken m) = refl
raised-not_found (lost x) = raised-not_found x

-- a role that does not parse is an error of its own
parse-not_found :
    (s : String) (e : Err) → wrapped (Role.parse s) ≡ err e → is e membership_not_found ≡ false
unfolding Role.parse is
parse-not_found s e h = elim (Option-cases (find (λ v. str_eq (Role.to_string v) s) declared)) [
  | inl n ↦ ground arith
  | inr (v, n) ↦ ground arith
]

named : (s : String) {r : Role} → wrapped (Role.parse s) ≡ ok r → Role.to_string r ≡ s
unfolding Role.parse
named s h = name-parse_among Role.to_string declared s (wrapped-eq_ok _ h)

module _ (P : Db → Type 0) (tenant_id user_id : String) where
  -- what the row lookup answers
  abbrev Missing : Err → Db → Type 0
  Missing e d =
      P d
      × (is e no_rows ≡ true → role_of tenant_id user_id d ≡ none)
      × (is e membership_not_found ≡ false)

  abbrev pub Unfound : Err → Db → Type 0
  Unfound e d = P d × (is e membership_not_found ≡ true → role_of tenant_id user_id d ≡ none)

  abbrev pub Found : Role → Db → Type 0
  Found role d = P d × (role_of tenant_id user_id d ≡ some (Role.to_string role))

  Missing-Unfound :
      (e : Err) (d : Db) → Missing e d → Unfound (or_missing membership_not_found wrap e) d
  unfolding is
  Missing-Unfound e d (s, n, m) = elim (Bool-cases (is e no_rows)) [
    | inl i ↦ rw i (s, λ x. n i)
    | inr i ↦ rw i (s, λ x. ground arith)
  ]

  looked_up :
      (d : Db)
      → P d
      → Left
          (λ role d'. P d' × (role_of tenant_id user_id d' ≡ some role))
          Missing
          (elim (role_of tenant_id user_id d) [ none ↦ err (sentinel no_rows) | some r ↦ ok r ], d)
  unfolding is
  looked_up d s = elim (Option-cases (role_of tenant_id user_id d)) [
    | inl e ↦ rw e (s, λ x. e, refl)
    | inr (r, e) ↦ rw e (s, e)
  ]

  -- A role that is found is the member's; an error that says there is none tells the truth.
  pub Triple-find_tenant_role :
      Triple P (find_tenant_role_for_share tenant_id user_id) Found Unfound
  unfolding find_tenant_role_for_share
  Triple-find_tenant_role =
      Triple-bind {Q = λ role d. P d × (role_of tenant_id user_id d ≡ some role)} _ _
        (Triple-map_error {R = Missing} _ _
          (Triple-statement _ looked_up
            (λ x d s. (s, λ i. ground (arith, raised-no_rows x), raised-not_found x))
            (λ x d s. (s, λ i. ground (arith, raised-no_rows x), raised-not_found x)))
          Missing-Unfound)
        (λ role.
          Triple-lift _ (λ r e d h. (h.0, h.1 ∙ ap some (sym (named role e))))
            (λ x e d h. (h.0, λ i. ground (arith, parse-not_found role x e))))
