-- ===== src/Witnesses/Aborting.antt =====
-- The theorems on transactions: where the lock of a tenant's memberships meets a deadlock, and where
-- the reply to the COMMIT of a removal is lost.
use tolo_tenant_management.Prelude.{◌≡◌, refl, true, none, some, [], ◌∷◌}
use tolo_tenant_management.Failure
use tolo_tenant_management.Failure.{PgError, Err, Result, err, pg, wrap, as_pg}
use tolo_tenant_management.Context.{Context}
use tolo_tenant_management.Exec
use tolo_tenant_management.Exec.{World, refused, lost, timed_out}
use tolo_tenant_management.Repository.Memberships as RepositoryMemberships
use tolo_tenant_management.Sample.{db, member_of}
use tolo_tenant_management.Transaction
use tolo_tenant_management.Transaction.{run_in_transaction}
use tolo_tenant_management.Transaction.Atomic.{AllOrNothing, inside, transaction_is_all_or_nothing}
use tolo_tenant_management.Transport.Tenant
use tolo_tenant_management.Transport.Relation
use tolo_tenant_management.Transport.Errors.Retry.{IsRetry, deadlock_is_retryable}

abbrev deadlock : PgError
deadlock = record { code = "40P01"; constraint = "" }

-- BEGIN is answered, and the first statement is not
abbrev deadlocked : World
deadlocked = record { db = db; faults = none ∷ some (refused deadlock) ∷ [] }

abbrev begun : World
begun = record { db = db; faults = some (refused deadlock) ∷ [] }

abbrev stopped : World
stopped = record { db = db; faults = [] }

abbrev locking : Context → Exec.Exec (Unit {0})
locking _ = RepositoryMemberships.lock_tenant_memberships "t2"

begun-ok : Transaction.control deadlocked ≡ (Failure.ok tt, begun)
unfolding Exec.statement
begun-ok = refl

locking-err :
    locking (record (member_of "p2" "ann") { transaction = true }) begun
    ≡ (err (wrap (pg deadlock)), stopped)
unfolding RepositoryMemberships.lock_tenant_memberships Exec.statement Exec.handle Exec.pure
    Exec.fail
locking-err = refl

deadlock_is_retryable_example :
    (d : Err) × (w' : World) × (run_in_transaction (member_of "p2" "ann") locking deadlocked
      ≡ (err d, w'))
    × (as_pg d ≡ as_pg (wrap (pg deadlock)))
    × IsRetry Tenant.client_errors d
    × IsRetry Relation.client_errors d
unfolding Transaction.is_transaction_abort Failure.as_pg Failure.is
deadlock_is_retryable_example =
    deadlock_is_retryable (member_of "p2" "ann") locking deadlocked begun stopped
      (wrap (pg deadlock)) refl begun-ok locking-err refl (λ s. refl)

-- BEGIN and the DELETE are answered, and the reply to COMMIT comes too late
abbrev unacknowledged : World
unacknowledged = record { db = db; faults = none ∷ none ∷ some (lost timed_out) ∷ [] }

abbrev removing : Context → Exec.Exec (Unit {0})
removing _ = RepositoryMemberships.revoke_tenant_membership "t2" "bob"

transaction_is_all_or_nothing_example :
    AllOrNothing db
      (removing (inside (member_of "p2" "ann")))
      (run_in_transaction (member_of "p2" "ann") removing unacknowledged)
transaction_is_all_or_nothing_example =
    transaction_is_all_or_nothing (member_of "p2" "ann") removing unacknowledged refl
