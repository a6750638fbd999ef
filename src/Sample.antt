-- ===== src/Sample.antt =====
-- Small tables and callers that the tests run on: a pending tenant and an owned one, its owner
-- `ann` and its staff member `bob`, and one event.
use Prim.Native.Char.{code}
use tolo_tenant_management.Prelude.{String, ℕ, false, none, some, List, [], ◌∷◌}
use tolo_tenant_management.Failure.{ok}
use tolo_tenant_management.Context.{Context}
use tolo_tenant_management.Domain.Tenant.{Hash}
use tolo_tenant_management.Store.{
  TenantRow, EventRow, MembershipRow, EventRoleRow, InvitationRow, Db,
}
use tolo_tenant_management.Token.{Platform}
use tolo_tenant_management.Exec.{World}

abbrev pub zeros : List ℕ
zeros = 0 ∷ 0 ∷ 0 ∷ 0 ∷ 0 ∷ 0 ∷ 0 ∷ 0 ∷ []

-- thirty-two bytes that begin with a given one
abbrev pub bytes32 : ℕ → Hash
bytes32 b =
    b ∷ 0 ∷ 0 ∷ 0 ∷ 0 ∷ 0 ∷ 0 ∷ 0 ∷ 0 ∷ 0 ∷ 0 ∷ 0 ∷ 0 ∷ 0 ∷ 0 ∷ 0 ∷ 0 ∷ 0 ∷ 0 ∷ 0 ∷ 0 ∷ 0 ∷ 0 ∷ 0
    ∷ 0 ∷ 0 ∷ 0 ∷ 0 ∷ 0 ∷ 0 ∷ 0 ∷ 0 ∷ []

-- a digest that tells texts apart by their first character
abbrev pub digest : String → Hash
digest String.[] = bytes32 0
digest (String.◌∷◌ c s) = bytes32 (code c)

abbrev pub platform : Platform
platform = record {
  now = 100;
  uuid = ok "u-new";
  random8 = ok zeros;
  random32 = ok (bytes32 7);
  sha256 = digest;
}

abbrev pub pending : TenantRow
pending = record {
  id = "t1";
  public_id = "p1";
  name = "Acme";
  contract_plan = "basic";
  ownership_state = "pending_owner";
  subdomain = none;
  claim_token_hash = some (digest "token");
  claim_expires_at = some 200;
  archived = false;
}

abbrev pub owned : TenantRow
owned = record {
  id = "t2";
  public_id = "p2";
  name = "Beta";
  contract_plan = "basic";
  ownership_state = "owned";
  subdomain = some "beta";
  claim_token_hash = none;
  claim_expires_at = none;
  archived = false;
}

abbrev pub ann : MembershipRow
ann = record {
  tenant_id = "t2";
  user_id = "ann";
  tenant_role = "owner";
  display_name = "Ann";
  joined_at = 10;
}

abbrev pub bob : MembershipRow
bob = record {
  tenant_id = "t2";
  user_id = "bob";
  tenant_role = "staff";
  display_name = "Bob";
  joined_at = 20;
}

abbrev pub festival : EventRow
festival = record {
  id = "e1";
  public_id = "q1";
  tenant_id = "t2";
  tenant_public_id = "p2";
  name = "Festival";
  status = "open";
}

abbrev pub bob_at_festival : EventRoleRow
bob_at_festival = record { event_id = "e1"; tenant_id = "t2"; user_id = "bob"; role = "staff" }

abbrev pub invitation : InvitationRow
invitation = record {
  id = "i1";
  public_id = "r1";
  tenant_id = "t2";
  tenant_role = "staff";
  display_name = "Cy";
  token_hash = digest "invite";
  expires_at = 300;
  created_at = 30;
  accepted_at = none;
  accepted_by = none;
  revoked_at = none;
}

abbrev pub db : Db
db = record {
  tenants = pending ∷ owned ∷ [];
  events = festival ∷ [];
  memberships = ann ∷ bob ∷ [];
  event_roles = bob_at_festival ∷ [];
  invitations = invitation ∷ [];
  now = 99;
}

abbrev pub world : World
world = record { db = db; faults = [] }

-- a caller with a token that names no tenant, as `registration` tokens do
abbrev pub registering : String → Context
registering user = record {
  claims = some (record { subject = user; tenant_public_id = "" });
  bound = none;
  transaction = false;
}

-- a caller authenticated for a tenant
abbrev pub member_of : String → String → Context
member_of public_id user = record {
  claims = some (record { subject = user; tenant_public_id = public_id });
  bound = none;
  transaction = false;
}
