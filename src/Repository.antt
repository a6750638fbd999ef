-- ===== src/Repository.antt =====
-- What the PostgreSQL repositories share: reading one row, and counting the rows of a write.
pub mod Tenants
pub mod Events
pub mod Memberships
pub mod Invitations
use tolo_tenant_management.Prelude.{ℕ, ◌==◌, Option, none, some, if◌then◌else◌}
use tolo_tenant_management.Failure.{Sentinel, Err, sentinel, wrap, is, no_rows, Result, ok, err}
use tolo_tenant_management.Store.{Db}
use tolo_tenant_management.Exec.{Exec, pure, fail, statement, map_error}

-- `sqlx.GetContext`: `sql.ErrNoRows` where no row is found
abbrev pub get : {R : Type 0} → (Db → Option R) → Exec R
get f = statement (λ d. (elim (f d) [ none ↦ err (sentinel no_rows) | some r ↦ ok r ], d))

-- `errors.Is(err, sql.ErrNoRows)` turned into the package's own error
abbrev pub or_missing : Sentinel → (Err → Err) → Err → Err
or_missing missing otherwise e = if is e no_rows then sentinel missing else otherwise e

-- `expectOneRow`
abbrev pub expect_one_row : ℕ → Sentinel → Exec (Unit {0})
expect_one_row rows missing = if rows == 0 then fail (sentinel missing) else pure tt
