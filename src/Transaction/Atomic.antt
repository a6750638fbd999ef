-- ===== src/Transaction/Atomic.antt =====
-- A transaction is all or nothing.
use tolo_tenant_management.Prelude.{
  ◌≡◌, refl, subst, false, true, Option, none, some, List, [], ◌∷◌, ◌⊎◌, inl, inr, Bool-cases,
}
use tolo_tenant_management.Failure.{Err, wrap, join, Result, ok, err}
use tolo_tenant_management.Context.{Context}
use tolo_tenant_management.Store.{Db}
use tolo_tenant_management.Exec.{
  World, Exec, Fault, lost, refused, cancelled, timed_out, broken, is_lost, raised, round_trip,
  statement, handle, resume, pure, fail,
}
use tolo_tenant_management.Transaction.{finish, run_in_transaction, control, abort_error}

-- the context that the work of a transaction is handed
abbrev pub inside : Context → Context
inside ctx = record ctx { transaction = true }

control_trip :
    (faults : List (Option Fault)) (w : World) → (round_trip (λ d. (ok tt, d)) faults w).1.db ≡ w.db
control_trip [] w = refl
control_trip (none ∷ rest) w = refl
control_trip (some x ∷ rest) w = elim (Bool-cases (is_lost x)) [
  | inl y ↦ rw y refl
  | inr n ↦ rw n refl
]

control-db : (w : World) → (control w).1.db ≡ w.db
unfolding statement
control-db w = control_trip w.faults w

-- the tables are those at BEGIN, with an error
abbrev pub RolledBack : {A : Type 0} → Db → Result A × World → Type 0
RolledBack before (ok a, w) = ⊥
RolledBack before (err e, w) = w.db ≡ before

-- COMMIT was carried out: the value is returned, or the reply was lost to a failure
abbrev pub Told : {A : Type 0} → A → World → Result A → Type 0
Told a w₂ r =
    (r ≡ ok a)
    ⊎ ((x : Fault) × (rest : List (Option Fault)) × (w₂.faults ≡ some (lost x) ∷ rest)
        × (r ≡ err (wrap (raised x))))

-- the work was completed on the tables at BEGIN, and the tables are what it has left
abbrev pub Committed : {A : Type 0} → Db → Exec A → Result A × World → Type 0
Committed {A} before work r =
    (w₁ w₂ : World) × (a : A) × (w₁.db ≡ before)
    × (work w₁ ≡ (ok a, w₂))
    × (r.1.db ≡ w₂.db)
    × Told a w₂ r.0

-- either of the two
abbrev pub AllOrNothing : {A : Type 0} → Db → Exec A → Result A × World → Type 0
AllOrNothing before work r = RolledBack before r ⊎ Committed before work r

moved :
    {A : Type 0} {d e : Db} (work : Exec A) (r : Result A × World)
    → d ≡ e
    → AllOrNothing d work r
    → AllOrNothing e work r
moved work r same h = subst (λ x. AllOrNothing x work r) same h

rolled_back :
    (A : Type 0) (before : Db) (e : Err) (r : Result (Unit {0}) × World)
    → r.1.db ≡ before
    → RolledBack {A = A} before
        (resume (λ _. fail (abort_error e)) (λ x. fail (join (abort_error e) (wrap x))) r)
unfolding fail
rolled_back A before e (ok u, w) h = h
rolled_back A before e (err x, w) h = h

module _ {A : Type 0} where
  committed :
      (before : Db) (work : Exec A) (w₁ w₂ : World) (a : A)
      → w₁.db ≡ before
      → work w₁ ≡ (ok a, w₂)
      → (faults : List (Option Fault)) → w₂.faults ≡ faults
      → let r =
          resume
            (λ _. pure a)
            (λ e. fail (wrap e))
            (round_trip (λ _. (ok tt, w₂.db)) faults (record w₂ { db = before })) in
        AllOrNothing before work r
  unfolding pure fail
  committed before work w₁ w₂ a start done [] e = inr (w₁, w₂, a, start, done, refl, inl refl)
  committed before work w₁ w₂ a start done (none ∷ rest) e =
      inr (w₁, w₂, a, start, done, refl, inl refl)
  committed before work w₁ w₂ a start done (some (lost x) ∷ rest) e =
      inr (w₁, w₂, a, start, done, refl, inr (x, rest, e, refl))
  committed before work w₁ w₂ a start done (some (refused x) ∷ rest) e = inl refl
  committed before work w₁ w₂ a start done (some cancelled ∷ rest) e = inl refl
  committed before work w₁ w₂ a start done (some timed_out ∷ rest) e = inl refl
  committed before work w₁ w₂ a start done (some (broken x) ∷ rest) e = inl refl

  finished :
      (before : Db) (work : Exec A) (w₁ : World) (r : Result A × World)
      → w₁.db ≡ before
      → work w₁ ≡ r
      → AllOrNothing before work (finish before r)
  unfolding finish handle statement
  finished before work w₁ (ok a, w₂) start done =
      committed before work w₁ w₂ a start done w₂.faults refl
  finished before work w₁ (err e, w₂) start done =
      inl (rolled_back A before e (control (record w₂ { db = before })) (control-db _))

  begun :
      (work : Exec A) (r : Result (Unit {0}) × World)
      → let o = resume (λ _ w₁. finish w₁.db (work w₁)) (λ d. fail (wrap d)) r in
        AllOrNothing r.1.db work o
  unfolding fail
  begun work (ok u, w₁) = finished w₁.db work w₁ (work w₁) refl refl
  begun work (err x, w₁) = inl refl

-- A transaction of its own, whatever its work does and whichever of its statements, BEGIN, COMMIT or
-- ROLLBACK fails, either returns an error and leaves the tables as it found them, or it ran its work
-- to a value on the tables that it found and leaves the tables as the work left them; it then returns
-- that value, unless the reply to COMMIT was lost, in which case it returns that failure. So no part of
-- a work that failed stays, and a value is never returned for one that was rolled back.
pub transaction_is_all_or_nothing :
    {A : Type 0} (ctx : Context) (fn : Context → Exec A) (w : World)
    → ctx.transaction ≡ false
    → AllOrNothing w.db (fn (inside ctx)) (run_in_transaction ctx fn w)
unfolding run_in_transaction handle
transaction_is_all_or_nothing ctx fn w t =
    rw t (moved (fn (inside ctx)) _ (control-db w) (begun (fn (inside ctx)) (control w)))
