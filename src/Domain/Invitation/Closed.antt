-- ===== src/Domain/Invitation/Closed.antt =====
-- An invitation is used once.
use tolo_tenant_management.Prelude.{
  ℕ, ◌≡◌, refl, ◌<◌, ◌⊎◌, inl, inr, true, false, arith, ltb, ◌&&◌, and-eq_true, Bool-cases,
}
use tolo_tenant_management.Failure.{ok, err, sentinel, invitation_not_pending}
use tolo_tenant_management.Domain.Invitation.{
  Invitation, State, pending, accepted, revoked, accept, revoke, is_pending, close,
}

pending_state : (s : State) → is_pending s ≡ true → s ≡ pending
pending_state pending h = refl
pending_state accepted h = ground arith
pending_state revoked h = ground arith

opened :
    (i j : Invitation) (now : ℕ) (state : State)
    → close i now state ≡ ok j
    → (i.state ≡ pending) × (now < i.expires_at) × (j ≡ record i { state = state })
unfolding close
opened i j now state h = elim (Bool-cases (is_pending i.state && ltb now i.expires_at)) [
  | inl e ↦
      let (p, l) = and-eq_true _ _ e in
      (pending_state i.state p, ground (arith, l), ground (arith, h, e))
  | inr e ↦ ground (arith, h, e)
]

shut :
    (j : Invitation) (later : ℕ) (state : State)
    → is_pending j.state ≡ false
    → close j later state ≡ err (sentinel invitation_not_pending)
unfolding close
shut j later state h = rw h refl

after :
    (i j : Invitation) (later : ℕ) (state : State)
    → is_pending state ≡ false
    → j ≡ record i { state = state }
    → (accept j later ≡ err (sentinel invitation_not_pending))
      × (revoke j later ≡ err (sentinel invitation_not_pending))
unfolding accept revoke
after i j later state n h =
    let shut_state : is_pending j.state ≡ false = rw h n in
    (shut j later accepted shut_state, shut j later revoked shut_state)

-- An invitation that is accepted or revoked was pending and not expired; nothing of it but its state
-- changes; and at no time can the result be accepted or revoked again.
pub closed_for_good :
    (i j : Invitation) (now later : ℕ)
    → (accept i now ≡ ok j) ⊎ (revoke i now ≡ ok j)
    → (i.state ≡ pending)
      × (now < i.expires_at)
      × ((j ≡ record i { state = accepted }) ⊎ (j ≡ record i { state = revoked }))
      × (accept j later ≡ err (sentinel invitation_not_pending))
      × (revoke j later ≡ err (sentinel invitation_not_pending))
unfolding accept revoke
closed_for_good i j now later (inl h) =
    let (p, l, e) = opened i j now accepted h in
    let (a, r) = after i j later accepted refl e in (p, l, inl e, a, r)
closed_for_good i j now later (inr h) =
    let (p, l, e) = opened i j now revoked h in
    let (a, r) = after i j later revoked refl e in (p, l, inr e, a, r)
