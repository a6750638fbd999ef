-- ===== src/Domain/Event/Lifecycle.antt =====
-- The lifecycle of an event that the specification draws, and the transitions that the code allows.
use tolo_tenant_management.Prelude.{
  ℕ, ◌-◌, ◌≡◌, refl, sym, ap, ◌∙◌, ◌↔◌, true, inl, inr, arith, ◌==◌, ==_iff, if◌then◌else◌,
  Bool-cases, subst, ◌||◌,
}
use tolo_tenant_management.Failure.{ok}
use tolo_tenant_management.Domain.Event.{
  EventStatus, unspecified, draft, opened, locked, closed, archived, other, value, same,
  can_transition, Event, transition_to,
}

-- draft → open | archived, open → locked, locked → closed | open, closed → archived | open, and
-- archived → closed
pub data Allowed : EventStatus → EventStatus → Type 0 where
  opening : Allowed draft opened
  discarding : Allowed draft archived
  locking : Allowed opened locked
  closing : Allowed locked closed
  unlocking : Allowed locked opened
  archiving : Allowed closed archived
  reopening : Allowed closed opened
  restoring : Allowed archived closed

of_value : ℕ → EventStatus
of_value n =
    if n == 0
    then unspecified
    else if n == 1
    then draft
    else if n == 2
    then opened
    else if n == 3
    then locked
    else if n == 4
    then closed
    else if n == 5
    then archived
    else other (n - 6)

of_value-value : (s : EventStatus) → of_value (value s) ≡ s
unfolding of_value
of_value-value unspecified = refl
of_value-value draft = refl
of_value-value opened = refl
of_value-value locked = refl
of_value-value closed = refl
of_value-value archived = refl
of_value-value (other n) = ground arith

-- `==` on the constants is equality.
same-eq : (a b : EventStatus) → same a b ≡ true → b ≡ a
same-eq a b h =
    sym (of_value-value b) ∙ ap of_value (sym ((==_iff (value a) (value b)).0 h)) ∙ of_value-value a

-- one of two targets
either :
    (from a b to : EventStatus)
    → Allowed from a
    → Allowed from b
    → (same to a || same to b) ≡ true
    → Allowed from to
either from a b to p q h = elim (Bool-cases (same to a)) [
  | inl e ↦ subst (Allowed from) (same-eq to a e) p
  | inr e ↦ subst (Allowed from) (same-eq to b (rw e at h)) q
]

allowed : (from to : EventStatus) → can_transition from to ≡ true → Allowed from to
unfolding can_transition
allowed unspecified to h = ground arith
allowed draft to h = either draft opened archived to opening discarding h
allowed opened to h = subst (Allowed opened) (same-eq to locked h) locking
allowed locked to h = either locked closed opened to closing unlocking h
allowed closed to h = either closed archived opened to archiving reopening h
allowed archived to h = subst (Allowed archived) (same-eq to closed h) restoring
allowed (other n) to h = ground arith

permitted : {from to : EventStatus} → Allowed from to → can_transition from to ≡ true
unfolding can_transition
permitted opening = refl
permitted discarding = refl
permitted locking = refl
permitted closing = refl
permitted unlocking = refl
permitted archiving = refl
permitted reopening = refl
permitted restoring = refl

moved :
    (e f : Event) (to : EventStatus)
    → transition_to e to ≡ ok f
    → Allowed e.status to × (f ≡ record e { status = to })
unfolding transition_to
moved e f to h = elim (Bool-cases (can_transition e.status to)) [
  | inl c ↦ (allowed e.status to c, ground (arith, h, c))
  | inr c ↦ ground (arith, h, c)
]

-- An event changes its status exactly along the lifecycle of the specification, and nothing of it
-- but the status changes.
pub transition_to_iff :
    (e f : Event) (to : EventStatus)
    → (transition_to e to ≡ ok f) ↔ (Allowed e.status to × (f ≡ record e { status = to }))
unfolding transition_to
transition_to_iff e f to = (moved e f to, λ h. rw (permitted h.0) (ap ok (sym h.1)))
