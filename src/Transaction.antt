-- ===== src/Transaction.antt =====
-- internal/infra/db/transaction.go.
pub mod Atomic
pub mod Triple
use tolo_tenant_management.Prelude.{
  String, Bool, true, false, ◌||◌, Option, none, some, str_eq, if◌then◌else◌,
}
use tolo_tenant_management.Failure.{
  PgError, Err, sentinel, wrap, join, as_pg, transaction_aborted, Result, ok, err,
}
use tolo_tenant_management.Context.{Context}
use tolo_tenant_management.Store.{Db}
use tolo_tenant_management.Exec.{World, Exec, pure, fail, statement, handle, resume}

unfoldable pub is_transaction_abort : Err → Bool
unfolding as_pg
is_transaction_abort e = elim (as_pg e) [
  | none ↦ false
  | some p ↦ str_eq p.code "40001" || str_eq p.code "40P01"
]

-- BEGIN and ROLLBACK as round trips
abbrev pub control : Exec (Unit {0})
control = statement (λ d. (ok tt, d))

-- COMMIT of what a transaction has written: until it is carried out, the tables are what they were
abbrev pub commit : Db → Exec (Unit {0})
commit written = statement (λ _. (ok tt, written))

abbrev pub abort_error : Err → Err
abort_error e = if is_transaction_abort e then join e (sentinel transaction_aborted) else e

module _ {A : Type 0} where
  -- Without a COMMIT that is carried out, the tables are what they were at BEGIN.
  unfoldable pub finish : Db → Result A × World → Result A × World
  unfolding handle statement is_transaction_abort
  finish before (ok a, w) =
      handle (commit w.db) (λ _. pure a) (λ e. fail (wrap e)) (record w { db = before })
  finish before (err e, w) =
      handle control (λ _. fail (abort_error e)) (λ r. fail (join (abort_error e) (wrap r)))
        (record w { db = before })

  unfoldable pub run_in_transaction : Context → (Context → Exec A) → Exec A
  unfolding finish
  run_in_transaction ctx fn w =
      if ctx.transaction
      then fn ctx w
      else handle control (λ _ w'. finish w'.db (fn (record ctx { transaction = true }) w'))
          (λ e. fail (wrap e)) w
