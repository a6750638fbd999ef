-- ===== src/Domain/Enum.antt =====
-- The loop that `ParseRole`, `ParseEventStatus` and `ParseTenantOwnershipState` share: the declared
-- values in order, the first one whose name is the text.
use tolo_tenant_management.Prelude.{
  String, ◌≡◌, inl, inr, none, some, List, [], ◌∷◌, arith, str_eq, find, eq_iff, Bool-cases,
}
use tolo_tenant_management.Failure.{Result, ok, err, opaque}

module _ {A : Type 0} (name : A → String) where
  unfoldable pub parse_among : List A → String → Result A
  parse_among values s = elim (find (λ v. str_eq (name v) s) values) [
    | some v ↦ ok v
    | none ↦ err (opaque "invalid value")
  ]

  -- A parsed value has the text for its name.
  pub name-parse_among :
      (values : List A) (s : String) {v : A} → parse_among values s ≡ ok v → name v ≡ s
  unfolding parse_among
  name-parse_among [] s h = ground arith
  name-parse_among (x ∷ xs) s {v} h = elim (Bool-cases (str_eq (name x) s)) [
    | inl e ↦ ground (arith, (eq_iff (name x) s).0 e)
    | inr e ↦ name-parse_among xs s (rw (e, parse_among) at h)
  ]
