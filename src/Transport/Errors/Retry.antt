-- ===== src/Transport/Errors/Retry.antt =====
-- A transaction that PostgreSQL aborts, from internal/infra/db/transaction.go to the client errors of
-- internal/tenant/infra/connect/service.go and internal/relation/infra/connect/service.go.
use tolo_tenant_management.Prelude.{
  if◌then◌else◌, ◌≡◌, refl, ◌∙◌, Bool, true, false, ◌||◌, List, [], ◌∷◌, any, inl, inr, Bool-cases,
  arith, Option, none, some, Option-cases,
}
use tolo_tenant_management.Failure
use tolo_tenant_management.Failure.{
  Sentinel, Err, PgError, sentinel, wrap, join, is, as_pg, same_sentinel, transaction_aborted,
  Result, ok, err,
}
use tolo_tenant_management.Context.{Context}
use tolo_tenant_management.Exec.{
  World, Exec, Fault, refused, cancelled, timed_out, broken, lost, is_lost, raised, resume, fail,
  statement, round_trip, handle,
}
use tolo_tenant_management.Transaction.{
  is_transaction_abort, abort_error, control, finish, run_in_transaction,
}
use tolo_tenant_management.Transaction.Atomic.{inside}
use tolo_tenant_management.Transport.Errors.{ClientError, aborted, for_error}
use tolo_tenant_management.Transport.Tenant
use tolo_tenant_management.Transport.Relation

-- the client is told to retry, and nothing is logged
abbrev pub IsRetry : List ClientError → Err → Type 0
IsRetry table d =
    ((for_error table d).0.code ≡ aborted)
    × ((for_error table d).0.message ≡ "transaction aborted; retry the request")
    × ((for_error table d).1 ≡ [])

-- how errors.Is sees an error that is that of an aborted transaction, whatever came after it
abbrev IsAborted : Err → Type 0
IsAborted d =
    (t : Sentinel)
    → (same_sentinel Failure.canceled t || same_sentinel Failure.deadline_exceeded t) ≡ false
    → is d t ≡ same_sentinel transaction_aborted t

or_false : (b : Bool) → (b || false) ≡ b
or_false b = ground arith

abbrev ends_otherwise : ClientError → Bool
ends_otherwise c =
    same_sentinel Failure.canceled c.target || same_sentinel Failure.deadline_exceeded c.target

told_alike :
    (table : List ClientError) (d : Err)
    → IsAborted d
    → any ends_otherwise table ≡ false
    → any (λ c. same_sentinel transaction_aborted c.target) table ≡ true
    → ((for_error table d).0.code ≡ (for_error table (sentinel transaction_aborted)).0.code)
      × ((for_error table d).0.message ≡ (for_error table (sentinel transaction_aborted)).0.message)
      × ((for_error table d).1 ≡ [])
unfolding for_error is
told_alike [] d h n k = cc
told_alike (c ∷ cs) d h n k = elim (Bool-cases (ends_otherwise c)) [
  | inl o ↦ ground arith
  | inr o ↦ elim (Bool-cases (same_sentinel transaction_aborted c.target)) [
    | inl y ↦ rw (h c.target o, y) (refl, refl, refl)
    | inr y ↦ rw (h c.target o, y) (told_alike cs d h (rw o at n) (rw y at k))
  ]
]

pg_kept : (e : Err) → is_transaction_abort e ≡ true → (d : Err) → as_pg (join e d) ≡ as_pg e
unfolding is_transaction_abort as_pg
pg_kept e a d = elim (Option-cases (as_pg e)) [
  | inl n ↦ ground (arith, rw (is_transaction_abort, n) at a)
  | inr (p, k) ↦ rw k refl
]

abbrev Aborts : Err → Err → Type 0
Aborts e d = IsAborted d × (as_pg d ≡ as_pg e)

module _ (e : Err) (abort : is_transaction_abort e ≡ true)
    (plain : (s : Sentinel) → is e s ≡ false) where
  joined : Aborts e (abort_error e)
  unfolding is
  joined = rw abort ((λ t n. rw (plain t) refl), pg_kept e abort _)

  raised-is :
      (x : Fault) (t : Sentinel)
      → (same_sentinel Failure.canceled t || same_sentinel Failure.deadline_exceeded t) ≡ false
      → is (raised x) t ≡ false
  unfolding is
  raised-is (refused p) t n = refl
  raised-is cancelled t n = ground (arith, n)
  raised-is timed_out t n = ground (arith, n)
  raised-is (broken m) t n = refl
  raised-is (lost x) t n = raised-is x t n

  again : is_transaction_abort (join e (sentinel transaction_aborted)) ≡ true
  unfolding is_transaction_abort
  again = rw (is_transaction_abort, pg_kept e abort (sentinel transaction_aborted)) abort

  after_rollback : (x : Fault) → Aborts e (join (abort_error e) (wrap (raised x)))
  unfolding is as_pg
  after_rollback x = rw abort (
    (λ t n. rw (plain t, raised-is x t n) (or_false (same_sentinel transaction_aborted t))),
    pg_kept (join e (sentinel transaction_aborted)) again (wrap (raised x))
        ∙ pg_kept e abort (sentinel transaction_aborted),
  )

  -- ROLLBACK, whether it is answered or not
  rolled_back :
      {A : Type 0} (faults : List (Option Fault)) (w : World)
      → (d : Err) × (w' : World) × (resume {B = A}
            (λ _. fail (abort_error e))
            (λ r. fail (join (abort_error e) (wrap r)))
            (round_trip (λ x. (ok tt, x)) faults w)
          ≡ (err d, w'))
        × Aborts e d
  unfolding fail
  rolled_back [] w = (abort_error e, w, refl, joined)
  rolled_back (none ∷ rest) w = (abort_error e, record w { faults = rest }, refl, joined)
  rolled_back (some x ∷ rest) w = (
    join (abort_error e) (wrap (raised x)),
    record w { db = if is_lost x then w.db else w.db; faults = rest },
    refl,
    after_rollback x,
  )

IsRetry-of :
    (d : Err) → IsAborted d → IsRetry Tenant.client_errors d × IsRetry Relation.client_errors d
unfolding for_error is
IsRetry-of d h =
    (told_alike Tenant.client_errors d h refl refl, told_alike Relation.client_errors d h refl refl)

-- Work in a transaction of its own that fails with a deadlock or a serialization failure of
-- PostgreSQL, and with no error of the program's, makes the transaction fail, whether ROLLBACK is
-- answered or not; the error that comes out still carries the same PostgreSQL error, and both services
-- answer a client with the code for an aborted call and the advice to retry, and log nothing.
pub deadlock_is_retryable :
    {A : Type 0} (ctx : Context) (fn : Context → Exec A) (w w₀ w₁ : World) (e : Err)
    → ctx.transaction ≡ false
    → control w ≡ (ok tt, w₀)
    → fn (inside ctx) w₀ ≡ (err e, w₁)
    → is_transaction_abort e ≡ true
    → ((s : Sentinel) → is e s ≡ false)
    → (d : Err) × (w' : World) × (run_in_transaction ctx fn w ≡ (err d, w'))
      × (as_pg d ≡ as_pg e)
      × IsRetry Tenant.client_errors d
      × IsRetry Relation.client_errors d
unfolding run_in_transaction finish handle statement
deadlock_is_retryable {A} ctx fn w w₀ w₁ e t begun failed_ abort plain =
    let (d, w', ends, aborts) =
      rolled_back e abort plain {A = A} w₁.faults (record w₁ { db = w₀.db }) in
    let told = IsRetry-of d aborts.0 in
    (d, w', rw (t, begun, failed_) ends, aborts.1, told.0, told.1)
