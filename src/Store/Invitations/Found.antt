-- ===== src/Store/Invitations/Found.antt =====
-- The invitation that a lookup gives.
use tolo_tenant_management.Prelude.{
  ◌≡◌, sym, ap, Bool, true, Option, none, some, inl, inr, arith, List, [], ◌∷◌, select, All,
  All-select, str_eq, find, Option-cases,
}
use tolo_tenant_management.Store.{InvitationRow, Db}
use tolo_tenant_management.Store.Invitations.{InvitationView, with_tenant, first, get}

All-with_tenant :
    (P : InvitationRow → Type 0) (d : Db) (is : List InvitationRow)
    → All P is
    → All (λ v. P v.row) (with_tenant d is)
All-with_tenant P d [] h = tt
All-with_tenant P d (i ∷ is) h =
    elim (Option-cases (find (λ t. str_eq t.id i.tenant_id) d.tenants)) [
      | inl e ↦ rw (e, All, with_tenant) (All-with_tenant P d is h.1)
      | inr (t, e) ↦ rw (e, All, with_tenant) (h.0, All-with_tenant P d is h.1)
    ]

of_first :
    (P : InvitationView → Type 0) (vs : List InvitationView)
    → All P vs
    → {v : InvitationView} → first vs ≡ some v
    → P v
of_first P [] h e = ground arith
of_first P (x ∷ xs) h {v} e =
    let same : x ≡ v = ap {A = Option InvitationView} (λ o. elim o [ none ↦ x | some y ↦ y ]) e in
    rw (sym same) h.0

-- it satisfies the filter
pub of_get :
    (here : InvitationRow → Bool) (d : Db) {v : InvitationView}
    → get here d ≡ some v
    → here v.row ≡ true
unfolding get
of_get here d e =
    of_first (λ v. here v.row ≡ true) (with_tenant d (select here d.invitations))
      (All-with_tenant (λ i. here i ≡ true) d (select here d.invitations)
        (All-select here d.invitations))
      e
