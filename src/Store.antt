-- ===== src/Store.antt =====
-- The tables that migrations/ declares, and the constraint checks that its statements make.
-- Columns that nothing reads back (tenants.created_at, events.created_at, event_roles.created_at)
-- are left out.
pub mod Checked
pub mod Tenants
pub mod Events
pub mod Memberships
pub mod Invitations
use tolo_tenant_management.Prelude.{
  ℕ, String, Bool, Option, none, some, List, [], ◌∷◌, ltb, if◌then◌else◌,
}
use tolo_tenant_management.Text.{rune_count}
use tolo_tenant_management.Failure.{PgError, Err, pg, Result, ok, err}
use tolo_tenant_management.Domain.Tenant.{Hash}

pub record TenantRow : Type 0 where
  pub id : String
  pub public_id : String
  pub name : String
  pub contract_plan : String
  pub ownership_state : String
  pub subdomain : Option String
  pub claim_token_hash : Option Hash
  pub claim_expires_at : Option ℕ
  pub archived : Bool

pub record EventRow : Type 0 where
  pub id : String
  pub public_id : String
  pub tenant_id : String
  pub tenant_public_id : String
  pub name : String
  pub status : String

pub record MembershipRow : Type 0 where
  pub tenant_id : String
  pub user_id : String
  pub tenant_role : String
  pub display_name : String
  pub joined_at : ℕ

pub record EventRoleRow : Type 0 where
  pub event_id : String
  pub tenant_id : String
  pub user_id : String
  pub role : String

pub record InvitationRow : Type 0 where
  pub id : String
  pub public_id : String
  pub tenant_id : String
  pub tenant_role : String
  pub display_name : String
  pub token_hash : Hash
  pub expires_at : ℕ
  pub created_at : ℕ
  pub accepted_at : Option ℕ
  pub accepted_by : Option String
  pub revoked_at : Option ℕ

-- `now` is what CURRENT_TIMESTAMP answers.
pub record Db : Type 0 where
  pub tenants : List TenantRow
  pub events : List EventRow
  pub memberships : List MembershipRow
  pub event_roles : List EventRoleRow
  pub invitations : List InvitationRow
  pub now : ℕ

-- the first constraint in the order of the checks that a row violates
abbrev pub violation : List (Bool × PgError) → Option PgError
violation [] = none
violation ((broken, e) ∷ more) = if broken then some e else violation more

-- a write that is made only where no constraint is violated
abbrev pub checked : List (Bool × PgError) → ℕ → Db → Db → Result ℕ × Db
checked checks rows after before = elim (violation checks) [
  | some e ↦ (err (pg e), before)
  | none ↦ (ok rows, after)
]

abbrev pub unique : String → PgError
unique name = record { code = "23505"; constraint = name }

abbrev pub foreign_key : String → PgError
foreign_key name = record { code = "23503"; constraint = name }

abbrev pub check : String → PgError
check name = record { code = "23514"; constraint = name }

-- a VARCHAR(n) column takes n characters at most
abbrev pub too_long : ℕ → String → Bool × PgError
too_long n s = (ltb n (rune_count s), record { code = "22001"; constraint = "" })
