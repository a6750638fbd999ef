-- ===== src/Domain/Invitation.antt =====
-- internal/relation/domain/invitation.go. A time is a number of ticks of one clock.
pub mod Closed
use tolo_tenant_management.Prelude.{ℕ, String, Bool, true, false, ◌&&◌, ltb, if◌then◌else◌}
use tolo_tenant_management.Failure.{Result, ok, err, sentinel, invitation_not_pending}
use tolo_tenant_management.Domain.Role.{Role}
use tolo_tenant_management.Domain.DisplayName.{DisplayName}

pub data State : Type 0 where
  pending accepted revoked : State

pub record Invitation : Type 0 where
  pub id : String
  pub public_id : String
  pub tenant_id : String
  pub tenant_public_id : String
  pub role : Role
  pub display_name : DisplayName
  pub expires_at : ℕ
  pub state : State

abbrev pub is_pending : State → Bool
is_pending pending = true
is_pending accepted = false
is_pending revoked = false

unfoldable pub is_open : Invitation → ℕ → Bool
is_open i now = is_pending i.state && ltb now i.expires_at

unfoldable pub close : Invitation → ℕ → State → Result Invitation
unfolding is_open
close i now state =
    if is_open i now then ok (record i { state = state }) else err (sentinel invitation_not_pending)

unfoldable pub accept : Invitation → ℕ → Result Invitation
unfolding close
accept i now = close i now accepted

unfoldable pub revoke : Invitation → ℕ → Result Invitation
unfolding close
revoke i now = close i now revoked
