-- ===== src/Store/Memberships/Listed.antt =====
-- The rows that the listing of memberships gives.
use tolo_tenant_management.Prelude.{
  ◌≡◌, Bool, true, inl, inr, List, [], ◌∷◌, select, sort, All, All-select, All-sort, str_eq, find,
  Option-cases,
}
use tolo_tenant_management.Store.{MembershipRow, Db}
use tolo_tenant_management.Store.Memberships.{before, with_tenant, list}

All-with_tenant :
    (P : MembershipRow → Type 0) (d : Db) (ms : List MembershipRow)
    → All P ms
    → All (λ v. P v.row) (with_tenant d ms)
All-with_tenant P d [] h = tt
All-with_tenant P d (m ∷ ms) h =
    elim (Option-cases (find (λ t. str_eq t.id m.tenant_id) d.tenants)) [
      | inl e ↦ rw (e, All, with_tenant) (All-with_tenant P d ms h.1)
      | inr (t, e) ↦ rw (e, All, with_tenant) (h.0, All-with_tenant P d ms h.1)
    ]

-- each satisfies the filter
pub All-list : (here : MembershipRow → Bool) (d : Db) → All (λ v. here v.row ≡ true) (list here d)
unfolding list
All-list here d =
    All-with_tenant (λ m. here m ≡ true) d (sort before (select here d.memberships))
      (All-sort (λ m. here m ≡ true) before (select here d.memberships)
        (All-select here d.memberships))
