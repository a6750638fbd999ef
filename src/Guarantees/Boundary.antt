-- ===== src/Guarantees/Boundary.antt =====
-- The tenant boundary: `Ensure` and `VerifyOwnership` of internal/tenantctx.
use tolo_tenant_management.Prelude.{
  ◌≡◌, refl, sym, ap, String, true, false, some, inl, inr, arith, str_eq, eq_iff, Bool-cases,
  Option-cases,
}
use tolo_tenant_management.Text.{is_empty}
use tolo_tenant_management.Failure.{Err, ok}
use tolo_tenant_management.Context.{
  Context, ensure, verify_ownership, tenant_public_id_from_context,
}
use tolo_tenant_management.Store.{Db}
use tolo_tenant_management.Exec.{query, map_error}
use tolo_tenant_management.Exec.Triple.{Triple-statement, Triple-map_error}
use tolo_tenant_management.Guarantees.{Any, Reads}

-- a text without characters
pub empty_text : (s : String) → is_empty s ≡ true → s ≡ ""
empty_text String.[] h = refl
empty_text (String.◌∷◌ c s) h = cc

-- a boundary that was checked is no blank text
pub ensure-nonempty : (ctx : Context) (id : String) → ensure ctx id ≡ ok tt → is_empty id ≡ false
unfolding ensure
ensure-nonempty ctx id h = elim (Option-cases (tenant_public_id_from_context ctx)) [
  | inl e ↦ ground (arith, h)
  | inr (t, e) ↦ elim (Bool-cases (is_empty t)) [
    | inl b ↦ ground (arith, h)
    | inr b ↦ elim (Bool-cases (str_eq t id)) [
      | inl same ↦ rw (sym ((eq_iff t id).0 same)) b
      | inr differs ↦ ground (arith, h)
    ]
  ]
]

-- a row that belongs to another tenant is not handed back
pub verified :
    (ctx : Context) (id t : String)
    → tenant_public_id_from_context ctx ≡ some t
    → is_empty t ≡ false
    → verify_ownership ctx id ≡ ok tt
    → id ≡ t
unfolding verify_ownership
verified ctx id t e b h = elim (Bool-cases (str_eq t id)) [
  | inl same ↦ sym ((eq_iff t id).0 same)
  | inr differs ↦ ground (arith, h)
]

module _ {d : Db} where
  pub Reads-query :
      {A : Type 0} (f : Db → A) (g : Err → Err) → Reads d (map_error g (query f)) (λ a. a ≡ f d)
  Reads-query f g =
      Triple-map_error {R = Any} g (query f)
        (Triple-statement _ (λ x h. (h, ap f h)) (λ x y h. tt) (λ x y h. tt)) (λ e y h. tt)
