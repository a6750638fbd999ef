-- ===== src/Guarantees/Acceptance.antt =====
-- AcceptTenantInvitation of internal/relation/application/relation.go: what an acceptance that
-- succeeds was verified against, and what it leaves.
use tolo_tenant_management.Prelude.{
  ◌≡◌, refl, sym, ap, ◌∙◌, String, true, false, not, some, inl, inr, arith, Bool-cases,
}
use tolo_tenant_management.Text.{is_empty}
use tolo_tenant_management.Failure.{ok}
use tolo_tenant_management.Context.{Context, subject_from_context}
use tolo_tenant_management.Domain.Tenant.{Tenant, is_owned}
use tolo_tenant_management.Domain.Invitation
use tolo_tenant_management.Domain.Invitation.{Invitation, is_open, is_pending}
use tolo_tenant_management.Domain.Membership.{Membership}
use tolo_tenant_management.Store.{TenantRow, Db}
use tolo_tenant_management.Store.Tenants.{by_public_id}
use tolo_tenant_management.Store.Memberships.{role_of}
use tolo_tenant_management.Store.Invitations as Sql
use tolo_tenant_management.Store.Invitations.{InvitationView, has_token, same_hash}
use tolo_tenant_management.Token.{Platform, hash_of}
use tolo_tenant_management.Exec.{World, Exec, pure, ◌>>=◌}
use tolo_tenant_management.Repository.Memberships.{add_tenant_member}
use tolo_tenant_management.Exec.Triple.{
  Triple-bind, Triple-conseq, Triple-pure, Triple-fail, Triple-map_error,
}
use tolo_tenant_management.Transaction.Atomic.{inside}
use tolo_tenant_management.Repository.Tenants.{find_tenant_by_public_id}
use tolo_tenant_management.Repository.Invitations.{
  mark_invitation_accepted, find_invitation, find_invitation_by_token_for_update,
}
use tolo_tenant_management.RelationService.Gates.{usable}
use tolo_tenant_management.RelationService.Invitations.{
  accept_one, acceptable, accept_tenant_invitation, hidden_if_missing,
}
use tolo_tenant_management.Invariant.Reads.{Keeps-lock}
use tolo_tenant_management.Guarantees.{
  Any, Reads, Reads-bind, Reads-lift, Reads-pure, Reads-unless, Reads-keeps, Leads, led, Leads-next,
  Leads-unless, Leads-run,
}
use tolo_tenant_management.Guarantees.Lookup.{Stored, Reads-get, Reads-find_tenant, tenant_of-eq_ok}
use tolo_tenant_management.Guarantees.Admission.{owned_name}
use tolo_tenant_management.Guarantees.Claim.{subject_found}
use tolo_tenant_management.Guarantees.Joined.{
  Holds, IsUsed, Triple-add_tenant_member, Triple-mark_accepted,
}
use tolo_tenant_management.Guarantees.Offer.{IsOffer, Open, Read, opened}

-- the writes of the transaction
abbrev joining : Platform → Context → Tenant → String → Invitation → Exec Membership
joining p ctx t subject i =
    add_tenant_member ctx t.id subject i.role i.display_name >>= λ membership.
    mark_invitation_accepted i.id subject p.now >>= λ _. pure membership

module _ (p : Platform) (d : Db) where
  -- what the work of the transaction leaves
  abbrev pub Joined : Tenant → String → String → Db → Type 0
  Joined t subject token x =
      (is_owned t.ownership_state ≡ true)
      × (t.archived ≡ false)
      × ((v : InvitationView) × IsOffer p t.id token d v
          × (role_of t.id subject x ≡ some v.row.tenant_role)
          × IsUsed v.row.id x)

module _ {d : Db} (p : Platform) where
  Reads-acceptable : (i : Invitation) → Reads d (acceptable p i) (λ _. is_open i p.now ≡ true)
  unfolding Invitation.accept
  Reads-acceptable i = elim (Bool-cases (is_open i p.now)) [
    | inl e ↦ rw (e, Invitation.accept) (Reads-pure tt refl)
    | inr e ↦ rw (e, Invitation.accept) (Triple-fail _ (λ x h. tt))
  ]

  Reads-find_invitation :
      (tenant_id token : String)
      → Reads d
          (find_invitation_by_token_for_update tenant_id (hash_of p token))
          (Read p d tenant_id token)
  unfolding find_invitation_by_token_for_update find_invitation hash_of
  Reads-find_invitation tenant_id token =
      Reads-bind _ _ (Reads-get (Sql.get (has_token tenant_id (p.sha256 token))) _) (λ v e.
        Triple-conseq _ (λ x h. h) (λ i x h. (h.0, (v, e, h.1))) (λ e x h. h) (Reads-lift _))

  Reads-usable :
      (t : Tenant)
      → Reads d (usable t) (λ _. (is_owned t.ownership_state ≡ true) × (t.archived ≡ false))
  Reads-usable t =
      Reads-unless (not (is_owned t.ownership_state)) _ _
        (λ o. Reads-unless t.archived _ _ (λ a. Reads-pure tt (ground (arith, o), a)))

  Leads-write :
      (ctx : Context) (t : Tenant) (subject token : String) (i : Invitation)
      → Open p d t.id token i
      → (is_owned t.ownership_state ≡ true) × (t.archived ≡ false)
      → Leads d (joining p ctx t subject i) (λ _. Joined p d t subject token)
  unfolding role_of
  Leads-write ctx t subject token i (v, offer, role, id) ready =
      Triple-bind {Q = λ _. Holds t.id subject i.role} _ _
        (Triple-conseq _ (λ x h. tt) (λ m x h. h) (λ e x h. h)
          (Triple-add_tenant_member t.id subject i.role ctx i.display_name))
        (λ m.
          Triple-bind {Q = λ _ x. Holds t.id subject i.role x × IsUsed i.id x} _ _
            (Triple-mark_accepted (Holds t.id subject i.role) (λ x is h. h) i.id subject p.now)
            (λ _.
              Triple-pure m
                (λ x h. (ready.0, ready.1, (v, offer, h.0 ∙ ap some role, rw id at h.1)))))

  Leads-accept_one :
      (ctx : Context) (t : Tenant) (subject token : String)
      → Leads d (accept_one p t subject token ctx) (λ _. Joined p d t subject token)
  unfolding accept_one
  Leads-accept_one ctx t subject token = Leads-next _ _ (Reads-keeps _ (Keeps-lock t.id)) (λ _ _.
      Leads-next {R = Read p d t.id token} _ _
        (Triple-map_error {R = Any} hidden_if_missing _ (Reads-find_invitation t.id token)
          (λ e x h. tt))
        (λ i found. Leads-next _ _ (Reads-acceptable i) (λ _ o.
          Leads-next _ _ (Reads-usable t) (λ _ ready.
            Leads-write ctx t subject token i (opened p d t.id token i found o) ready))))

-- what an acceptance that succeeds was verified against, and what it has left
pub record Accepted (p : Platform) (ctx : Context) (tenant_public_id token : String)
    (before after : Db) : Type 0 where
  pub row : TenantRow
  pub found : by_public_id tenant_public_id before ≡ some row
  pub owned : row.ownership_state ≡ "owned"
  pub unarchived : row.archived ≡ false
  pub subject : String
  pub authenticated : subject_from_context ctx ≡ some subject
  pub offer : InvitationView
  pub offered : IsOffer p row.id token before offer
  pub member : role_of row.id subject after ≡ some offer.row.tenant_role
  pub used : IsUsed offer.row.id after

module _ (p : Platform) (ctx : Context) (tenant_public_id token : String) (d : Db) where
  accepted :
      (subject : String)
      → subject_from_context ctx ≡ some subject
      → (t : Tenant) → Stored ctx (by_public_id tenant_public_id) d t
      → (x : Db) → Joined p d t subject token x
      → Accepted p ctx tenant_public_id token d x
  accepted subject who t (row, e, made) x (owned, open_, (v, offer, member, used)) =
      let (same_id, same_mark, state) = tenant_of-eq_ok row t ctx made in
      record {
        row = row;
        found = e;
        owned = sym state ∙ owned_name t.ownership_state owned;
        unarchived = sym same_mark ∙ open_;
        subject = subject;
        authenticated = who;
        offer = v;
        offered = rw same_id at offer;
        member = rw same_id at member;
        used = used;
      }

-- An acceptance that returns a membership was made by an authenticated subject for a stored tenant
-- that is owned and not archived, with a token whose SHA-256 is that of an invitation of this tenant
-- which was neither accepted nor revoked, before its expiry; the tables it leaves have the subject as
-- a member with the invitation's role, and the invitation as accepted.
pub acceptance_is_verified :
    (p : Platform) (ctx : Context) (tenant_public_id token : String) (w : World) (m : Membership)
    (w' : World)
    → accept_tenant_invitation p ctx tenant_public_id token w ≡ (ok m, w')
    → Accepted p ctx tenant_public_id token w.db w'.db
unfolding accept_tenant_invitation find_tenant_by_public_id
acceptance_is_verified p ctx tenant_public_id token w m w' h =
    led {Q = λ _ x. Accepted p ctx tenant_public_id token w.db x} _ acceptance h
  where
    acceptance :
        Leads w.db
          (accept_tenant_invitation p ctx tenant_public_id token)
          (λ _ x. Accepted p ctx tenant_public_id token w.db x)
    acceptance = Leads-unless (is_empty tenant_public_id) _ _ (λ _.
        Leads-unless (is_empty token) _ _ (λ _. Leads-next _ _ (Reads-lift _) (λ subject known.
          Leads-next _ _ (Reads-find_tenant ctx (by_public_id tenant_public_id)) (λ t stored.
            Triple-conseq _ (λ x k. k)
              (λ _ x k.
                accepted p ctx tenant_public_id token w.db subject (subject_found ctx subject known)
                  t stored x k)
              (λ e x k. k)
              (Leads-run ctx _ (Leads-accept_one p ctx t subject token)
                (Leads-accept_one p (inside ctx) t subject token))))))
