-- ===== src/Invariant/Others.antt =====
-- The statements on `events` and `tenant_invitations` leave alone what the invariant reads.
use tolo_tenant_management.Prelude.{
  refl, ◌∙◌, arith, All, All-map, Distinct, Distinct-rewrite, any-rewrite, String, List, ◌∷◌, inl,
  inr, Bool-cases, Option-cases, any, find, rewrite, count_of, str_eq,
}
use tolo_tenant_management.Store.{EventRow, InvitationRow, Db}
use tolo_tenant_management.Store.Checked.{checked_elim}
use tolo_tenant_management.Store.Events as Events
use tolo_tenant_management.Store.Invitations as Invitations
use tolo_tenant_management.Invariant.{IsSound, OfEvent, same_event, is_event_of}

module _ (d : Db) (s : IsSound d) where
  with_events :
      (es : List EventRow)
      → Distinct same_event es
      → All (OfEvent es) d.event_roles
      → IsSound (record d { events = es })
  with_events es ids of = record {
    tenant_ids = s.tenant_ids;
    member_keys = s.member_keys;
    owners = s.owners;
    role_holders = s.role_holders;
    event_ids = ids;
    role_events = of;
    consistent = s.consistent;
  }

  with_invitations : (is : List InvitationRow) → IsSound (record d { invitations = is })
  with_invitations is = record {
    tenant_ids = s.tenant_ids;
    member_keys = s.member_keys;
    owners = s.owners;
    role_holders = s.role_holders;
    event_ids = s.event_ids;
    role_events = s.role_events;
    consistent = s.consistent;
  }

  pub insert_event-IsSound : (e : EventRow) → IsSound (Events.insert e d).1
  unfolding Events.insert
  insert_event-IsSound e = elim (Bool-cases (Events.open_tenant e.tenant_id d)) [
    | inl o ↦
        rw (o, Events.insert)
          (checked_elim IsSound (Events.insert_checks e d) 1 (record d { events = e ∷ d.events }) d
            s
            λ p.
              with_events (e ∷ d.events) (p.1.1.1.1.0, s.event_ids)
                (All-map (λ r k. ground (arith, k)) d.event_roles s.role_events))
    | inr o ↦ rw (o, Events.insert) s
  ]

  pub update_event-IsSound : (id name status : String) → IsSound (Events.update id name status d).1
  unfolding Events.update
  update_event-IsSound id name status =
      let after =
        rewrite (Events.writable id d) (λ e. record e { name = name; status = status }) d.events in
      elim (Bool-cases (any (Events.writable id d) d.events)) [
        | inl o ↦
            rw (o, Events.update)
              (checked_elim IsSound (Events.update_checks name status)
                (count_of (Events.writable id d) d.events) (record d { events = after }) d s
                λ p.
                  with_events after
                    (Distinct-rewrite same_event (Events.writable id d)
                      (λ e. record e { name = name; status = status }) (λ a b. refl) (λ a b. refl)
                      d.events s.event_ids)
                    (All-map
                      (λ r k.
                        any-rewrite (Events.writable id d) (is_event_of r.event_id r.tenant_id)
                          (λ e. record e { name = name; status = status }) (λ e. refl) d.events
                        ∙ k)
                      d.event_roles s.role_events))
        | inr o ↦ rw (o, Events.update) s
      ]

  pub insert_invitation-IsSound : (i : InvitationRow) → IsSound (Invitations.insert i d).1
  unfolding Invitations.insert
  insert_invitation-IsSound i =
      checked_elim IsSound (Invitations.insert_checks i d) 1
        (record d { invitations = i ∷ d.invitations }) d s λ p. with_invitations (i ∷ d.invitations)

  pub update_invitation-IsSound :
      (id : String) (change : InvitationRow → InvitationRow)
      → IsSound (Invitations.update id change d).1
  update_invitation-IsSound id change =
      elim (Option-cases (find (λ i. str_eq i.id id) d.invitations)) [
        | inl e ↦ rw (e, Invitations.update) s
        | inr (i, e) ↦
            rw (e, Invitations.update)
              (checked_elim IsSound (Invitations.closed_checks (change i)) 1
                (record d { invitations = rewrite (λ o. str_eq o.id id) change d.invitations }) d s
                λ p. with_invitations (rewrite (λ o. str_eq o.id id) change d.invitations))
      ]
