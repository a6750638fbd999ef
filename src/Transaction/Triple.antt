-- ===== src/Transaction/Triple.antt =====
-- What a transaction does to the tables, by what its work does.
use tolo_tenant_management.Prelude.{Bool, true, false, if◌then◌else◌}
use tolo_tenant_management.Failure.{Err, Result, ok, err, wrap, join}
use tolo_tenant_management.Context.{Context}
use tolo_tenant_management.Store.{Db}
use tolo_tenant_management.Exec.{World, Exec, fail, pure}
use tolo_tenant_management.Exec.Triple.{
  Triple, Keeps, Ends, Triple-handle, Triple-pure, Triple-fail, Triple-conseq, Triple-statement,
  Keeps-query,
}
use tolo_tenant_management.Transaction.{run_in_transaction, finish, control, commit, abort_error}
use tolo_tenant_management.Transaction.Atomic.{inside}

module _ {A : Type 0} (Q : A → Db → Type 0) (E : Err → Db → Type 0) where
  chosen :
      (b : Bool) (x y : Result A × World) → Ends Q E x → Ends Q E y → Ends Q E (if b then x else y)
  chosen true x y h k = h
  chosen false x y h k = k

module _ {A : Type 0} (Q : A → Db → Type 0) (E F : Err → Db → Type 0) where
  finished :
      (before : Db) (r : Result A × World)
      → ((e : Err) → E e before)
      → ((e : Err) (a : A) (d : Db) → Q a d → E e d)
      → Ends Q F r
      → Ends Q E (finish before r)
  unfolding finish
  finished before (ok a, w) k j h =
      (Triple-handle {P = λ d. (x : Err) → E x d} {Q = λ _. Q a} {R = λ _ d. (x : Err) → E x d}
          (commit w.db) (λ _. pure a) (λ e. fail (wrap e))
          (Triple-statement _ (λ d _. h) (λ x d g. g) (λ x d g y. j y a w.db h))
          (λ _. Triple-pure a (λ d g. g)) (λ e. Triple-fail (wrap e) (λ d g. g (wrap e)))).at
        (record w { db = before }) k
  finished before (err e, w) k j h =
      (Triple-handle {P = λ d. (x : Err) → E x d} {Q = λ _ d. (x : Err) → E x d}
          {R = λ _ d. (x : Err) → E x d} control (λ _. fail (abort_error e))
          (λ r. fail (join (abort_error e) (wrap r))) (Keeps-query _)
          (λ _. Triple-fail _ (λ d h. h _)) (λ r. Triple-fail _ (λ d h. h _))).at
        (record w { db = before }) k

module _ {P : Db → Type 0} {A : Type 0} {Q : A → Db → Type 0} {E F : Err → Db → Type 0} where
  -- The tables that a failed transaction leaves are the ones that it began with, or those of a COMMIT
  -- whose reply was lost.
  pub Triple-run_in :
      (ctx : Context) (fn : Context → Exec A)
      → ((e : Err) (d : Db) → F e d → E e d)
      → ((e : Err) (d : Db) → P d → E e d)
      → ((e : Err) (a : A) (d : Db) → Q a d → E e d)
      → Triple P (fn ctx) Q F
      → Triple P (fn (inside ctx)) Q F
      → Triple P (run_in_transaction ctx fn) Q E
  unfolding run_in_transaction
  Triple-run_in ctx fn l k j t u = record {
    at = λ w h.
        chosen Q E ctx.transaction _ _ ((Triple-conseq (fn ctx) (λ d p. p) (λ a d p. p) l t).at w h)
          ((Triple-handle {Q = λ _. P} {R = λ _. P} control
              (λ _ w'. finish w'.db (fn (inside ctx) w')) (λ x. fail (wrap x)) (Keeps-query _)
              (λ _. record {
                at = λ w' p.
                    finished Q E F w'.db (fn (inside ctx) w') (λ x. k x w'.db p) j (u.at w' p);
              })
              (λ x. Triple-fail (wrap x) (k (wrap x)))).at
            w h);
  }

  pub Triple-run_in_transaction :
      (ctx : Context) (fn : Context → Exec A)
      → ((e : Err) (d : Db) → F e d → E e d)
      → ((e : Err) (d : Db) → P d → E e d)
      → ((e : Err) (a : A) (d : Db) → Q a d → E e d)
      → ((ctx' : Context) → Triple P (fn ctx') Q F)
      → Triple P (run_in_transaction ctx fn) Q E
  Triple-run_in_transaction ctx fn l k j t = Triple-run_in ctx fn l k j (t ctx) (t (inside ctx))

module _ {P : Db → Type 0} {A : Type 0} where
  pub Keeps-run_in_transaction :
      (ctx : Context) (fn : Context → Exec A)
      → ((ctx' : Context) → Keeps P (fn ctx'))
      → Keeps P (run_in_transaction ctx fn)
  Keeps-run_in_transaction ctx fn t =
      Triple-run_in_transaction ctx fn (λ e d h. h) (λ e d h. h) (λ e a d h. h) t
