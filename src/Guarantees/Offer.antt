-- ===== src/Guarantees/Offer.antt =====
-- An invitation that a token finds and that is open: internal/relation/infra/db/invitation.go.
use tolo_tenant_management.Prelude.{
  ◌≡◌, String, true, false, some, inl, inr, arith, ltb, Bool-cases, and-eq_true,
}
use tolo_tenant_management.Failure
use tolo_tenant_management.Failure.{Result, ok, err, wrapped, wrapped-eq_ok}
use tolo_tenant_management.Domain.Enum.{name-parse_among}
use tolo_tenant_management.Domain.Role
use tolo_tenant_management.Domain.Role.{Role, declared}
use tolo_tenant_management.Domain.DisplayName
use tolo_tenant_management.Domain.DisplayName.{DisplayName}
use tolo_tenant_management.Domain.Invitation.{Invitation, is_open, is_pending}
use tolo_tenant_management.Store.{InvitationRow, Db}
use tolo_tenant_management.Store.Tenants.{is_some}
use tolo_tenant_management.Store.Invitations as Sql
use tolo_tenant_management.Store.Invitations.{InvitationView, has_token, same_hash}
use tolo_tenant_management.Token.{Platform}
use tolo_tenant_management.Store.Invitations.Found.{of_get}
use tolo_tenant_management.Repository.Invitations.{invitation_of, state_of}

module _ (v : InvitationView) (i : Invitation) where
  -- the invitation that parsed columns make
  abbrev assembled : Result Role → Result DisplayName → Result Invitation
  assembled role name = Failure.◌>>=◌ role λ r. Failure.◌>>=◌ name λ n. ok (record {
    id = v.row.id;
    public_id = v.row.public_id;
    tenant_id = v.row.tenant_id;
    tenant_public_id = v.public_id;
    role = r;
    display_name = n;
    expires_at = v.row.expires_at;
    state = state_of v.row;
  })

  assembled-eq_ok :
      (role : Result Role) (name : Result DisplayName)
      → assembled role name ≡ ok i
      → (role ≡ ok i.role)
        × (i.id ≡ v.row.id)
        × (i.expires_at ≡ v.row.expires_at)
        × (i.state ≡ state_of v.row)
  assembled-eq_ok (ok r) (ok n) h =
      (ground (arith, h), ground (arith, h), ground (arith, h), ground (arith, h))
  assembled-eq_ok (ok r) (err e) h = ground arith
  assembled-eq_ok (err e) name h = ground arith

  invitation_of-eq_ok :
      invitation_of v ≡ ok i
      → (Role.to_string i.role ≡ v.row.tenant_role)
        × (i.id ≡ v.row.id)
        × (i.expires_at ≡ v.row.expires_at)
        × (i.state ≡ state_of v.row)
  unfolding invitation_of Role.parse
  invitation_of-eq_ok h =
      let (role, id, expiry, state) =
        assembled-eq_ok (wrapped (Role.parse v.row.tenant_role))
          (wrapped (DisplayName.parse v.row.display_name)) h in
      (
        name-parse_among Role.to_string declared v.row.tenant_role (wrapped-eq_ok _ role),
        id,
        expiry,
        state,
      )

pending_row :
    (row : InvitationRow)
    → is_pending (state_of row) ≡ true
    → (is_some row.accepted_at ≡ false) × (is_some row.revoked_at ≡ false)
pending_row row h = elim (Bool-cases (is_some row.accepted_at)) [
  | inl a ↦ ground (arith, h, a)
  | inr a ↦ elim (Bool-cases (is_some row.revoked_at)) [
    | inl b ↦ ground (arith, h, a, b)
    | inr b ↦ (a, b)
  ]
]

-- an open invitation that a token finds
abbrev pub IsOffer : Platform → String → String → Db → InvitationView → Type 0
IsOffer p tenant_id token d v =
    (Sql.get (has_token tenant_id (p.sha256 token)) d ≡ some v)
    × (has_token tenant_id (p.sha256 token) v.row ≡ true)
    × (is_some v.row.accepted_at ≡ false)
    × (is_some v.row.revoked_at ≡ false)
    × (ltb p.now v.row.expires_at ≡ true)

module _ (p : Platform) (d : Db) where
  -- what is known of an invitation that was read and is open
  abbrev pub Open : String → String → Invitation → Type 0
  Open tenant_id token i =
      (v : InvitationView) × IsOffer p tenant_id token d v
      × (Role.to_string i.role ≡ v.row.tenant_role)
      × (i.id ≡ v.row.id)

  abbrev pub Read : String → String → Invitation → Type 0
  Read tenant_id token i =
      (v : InvitationView) × (Sql.get (has_token tenant_id (p.sha256 token)) d ≡ some v)
      × (invitation_of v ≡ ok i)

  pub opened :
      (tenant_id token : String) (i : Invitation)
      → Read tenant_id token i
      → is_open i p.now ≡ true
      → Open tenant_id token i
  unfolding is_open
  opened tenant_id token i (v, e, made) o =
      let (role, id, expiry, state) = invitation_of-eq_ok v i made in
      let (pending, unexpired) = and-eq_true (is_pending i.state) (ltb p.now i.expires_at) o in
      let (unused, unrevoked) = pending_row v.row (rw state at pending) in
      (
        v,
        (
          e,
          of_get (has_token tenant_id (p.sha256 token)) d e,
          unused,
          unrevoked,
          rw expiry at unexpired,
        ),
        role,
        id,
      )
