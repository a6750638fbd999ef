-- ===== src/Store/Checked.antt =====
-- A checked write either leaves the tables alone, or passed every check.
use tolo_tenant_management.Prelude.{
  ℕ, ◌≡◌, Bool, false, inl, inr, none, List, [], ◌∷◌, arith, All, Option-cases, Bool-cases,
}
use tolo_tenant_management.Failure.{PgError, Err, Result, ok, err, pg}
use tolo_tenant_management.Store.{Db, violation, checked}

-- what a statement answers, and the tables that it leaves
abbrev pub Left :
    {A : Type 0} (Q : A → Db → Type 0) (E : Err → Db → Type 0) → Result A × Db → Type 0
Left Q E (ok a, d) = Q a d
Left Q E (err e, d) = E e d

pub kept : {A : Type 0} (P : Db → Type 0) (r : Result A × Db) → P r.1 → Left (λ _. P) (λ _. P) r
kept P (ok a, d) h = h
kept P (err e, d) h = h

abbrev pub Passes : Bool × PgError → Type 0
Passes c = c.0 ≡ false

passed : (checks : List (Bool × PgError)) → violation checks ≡ none → All Passes checks
passed [] h = tt
passed (c ∷ cs) h = elim (Bool-cases c.0) [
  | inl e ↦ ground arith
  | inr e ↦ (e, passed cs (rw e at h))
]

pub checked_elim :
    (Q : Db → Type 0) (checks : List (Bool × PgError)) (rows : ℕ) (after before : Db)
    → Q before
    → (All Passes checks → Q after)
    → Q (checked checks rows after before).1
checked_elim Q checks rows after before h k = elim (Option-cases (violation checks)) [
  | inl e ↦ rw (e, checked) (k (passed checks e))
  | inr (p, e) ↦ rw (e, checked) h
]

-- the same for how the write ends, besides what it leaves
pub checked-Left :
    (Q : ℕ → Db → Type 0) (E : Err → Db → Type 0) (checks : List (Bool × PgError)) (rows : ℕ)
    (after before : Db)
    → ((p : PgError) → E (pg p) before)
    → (All Passes checks → Q rows after)
    → Left Q E (checked checks rows after before)
checked-Left Q E checks rows after before h k = elim (Option-cases (violation checks)) [
  | inl e ↦ rw (e, checked) (k (passed checks e))
  | inr (p, e) ↦ rw (e, checked) (h p)
]
