-- ===== src/Invariant/RelationCalls.antt =====
-- The use cases of RelationAdminService keep the tables sound, whatever fails on the way.
use tolo_tenant_management.Prelude.{
  ℕ, ◌≡◌, String, true, inl, inr, refl, arith, str_eq, Bool-cases, Option-cases,
}
use tolo_tenant_management.Failure.{Result, ok, err}
use tolo_tenant_management.Context.{Context, tenant_public_id_from_context}
use tolo_tenant_management.Domain.Role
use tolo_tenant_management.Domain.Role.{Role, is_owner}
use tolo_tenant_management.Domain.Tenant.{Tenant, Hash}
use tolo_tenant_management.Domain.Invitation.{Invitation}
use tolo_tenant_management.Store.{Db}
use tolo_tenant_management.Token.{Platform}
use tolo_tenant_management.Exec.{Exec}
use tolo_tenant_management.Exec.Triple.{Keeps, Keeps-pure, Keeps-fail, Triple-bind, Triple-conseq}
use tolo_tenant_management.Transaction.Triple.{Keeps-run_in_transaction}
use tolo_tenant_management.RelationService.Gates.{permitted_write, with_current_permission}
use tolo_tenant_management.RelationService.Members as Members
use tolo_tenant_management.RelationService.Invitations as Invitations
use tolo_tenant_management.RelationService.Invitations.{CreateTenantInvitationInput}
use tolo_tenant_management.Invariant.{IsSound}
use tolo_tenant_management.Invariant.Reads.{read_rules, Keeps-lock, Keeps-require}
use tolo_tenant_management.Invariant.Writes.{
  Keeps-add_tenant_member, Keeps-grant_event_role, Keeps-revoke_event_role, Keeps-create_invitation,
  Keeps-mark_accepted, Keeps-mark_revoked,
}
use tolo_tenant_management.Invariant.Owners.{
  Triple-change_tenant_role, Triple-revoke_tenant_membership, Replaceable,
}
use tolo_tenant_management.Invariant.LastOwner.{Triple-keep_another_owner}

module _ {P : Db → Type 0} {A : Type 0} where
  Keeps-permitted_write :
      (tenant_id : String) (write : Context → Exec A) (ctx : Context)
      → Keeps P (write ctx)
      → Keeps P (permitted_write tenant_id write ctx)
  unfolding permitted_write
  Keeps-permitted_write tenant_id write ctx k =
      Triple-bind {Q = λ _. P} _ _ (Keeps-lock tenant_id)
        (λ _. Triple-bind {Q = λ _. P} _ _ (Keeps-require ctx tenant_id _) (λ _. k))

  Keeps-with_current_permission :
      (ctx : Context) (tenant_id : String) (write : Context → Exec A)
      → ((ctx' : Context) → Keeps P (write ctx'))
      → Keeps P (with_current_permission ctx tenant_id write)
  unfolding with_current_permission
  Keeps-with_current_permission ctx tenant_id write k =
      Keeps-run_in_transaction ctx (permitted_write tenant_id write)
        (λ ctx'. Keeps-permitted_write tenant_id write ctx' (k ctx'))

pub Keeps-add_member :
    (ctx : Context) (tenant_public_id user_id : String) (role : Role) (name : String)
    → Keeps IsSound (Members.add_tenant_member ctx tenant_public_id user_id role name)
unfolding Members.add_tenant_member
Keeps-add_member ctx tenant_public_id user_id role name =
    search (read_rules, Keeps-add_tenant_member) depth 14

owner_name : (r : Role) → is_owner r ≡ true → str_eq (Role.to_string r) "owner" ≡ true
unfolding Role.to_string
owner_name Role.owner h = refl
owner_name Role.unspecified h = ground arith
owner_name Role.staff h = ground arith
owner_name Role.admin h = ground arith
owner_name (Role.other n) h = ground arith

Keeps-set_role :
    (tenant_id user_id : String) (role : Role) (ctx : Context)
    → Keeps IsSound (Members.set_role tenant_id user_id role ctx)
unfolding Members.set_role
Keeps-set_role tenant_id user_id role ctx = elim (Bool-cases (is_owner role)) [
  | inl e ↦
      rw (e, Members.set_role)
        (Triple-bind {Q = λ _. IsSound} _ _ (Keeps-pure tt) (λ _.
          Triple-conseq _ (λ d h. (h, inl (owner_name role e))) (λ a d h. h) (λ x d h. h)
            (Triple-change_tenant_role tenant_id user_id ctx role)))
  | inr e ↦
      rw (e, Members.set_role)
        (Triple-bind {Q = λ _. Replaceable tenant_id user_id} _ _
          (Triple-keep_another_owner tenant_id user_id)
          (λ _.
            Triple-conseq _ (λ d h. (h.0, inr h.1)) (λ a d h. h) (λ x d h. h)
              (Triple-change_tenant_role tenant_id user_id ctx role)))
]

pub Keeps-change_role :
    (ctx : Context) (tenant_public_id user_id : String) (role : Role)
    → Keeps IsSound (Members.change_tenant_role ctx tenant_public_id user_id role)
unfolding Members.change_tenant_role
Keeps-change_role ctx tenant_public_id user_id role =
    search (read_rules, Keeps-with_current_permission, Keeps-set_role) depth 14

pub Keeps-grant_role :
    (ctx : Context) (event_public_id user_id : String) (role : Role)
    → Keeps IsSound (Members.grant_event_role ctx event_public_id user_id role)
unfolding Members.grant_event_role
Keeps-grant_role ctx event_public_id user_id role =
    search (read_rules, Keeps-with_current_permission, Keeps-grant_event_role) depth 14

Keeps-remove_member :
    (tenant_id user_id : String) (ctx : Context)
    → Keeps IsSound (Members.remove_member tenant_id user_id ctx)
unfolding Members.remove_member
Keeps-remove_member tenant_id user_id ctx =
    Triple-bind {Q = λ _. Replaceable tenant_id user_id} _ _
      (Triple-keep_another_owner tenant_id user_id)
      (λ _. Triple-revoke_tenant_membership tenant_id user_id)

Keeps-revoke_in_tenant :
    (ctx : Context) (tenant_public_id user_id : String)
    → Keeps IsSound (Members.revoke_in_tenant ctx tenant_public_id user_id)
unfolding Members.revoke_in_tenant
Keeps-revoke_in_tenant ctx tenant_public_id user_id =
    search (read_rules, Keeps-with_current_permission, Keeps-remove_member)

Keeps-revoke_in_event :
    (ctx : Context) (event_public_id user_id : String)
    → Keeps IsSound (Members.revoke_in_event ctx event_public_id user_id)
unfolding Members.revoke_in_event
Keeps-revoke_in_event ctx event_public_id user_id =
    search (read_rules, Keeps-with_current_permission, Keeps-revoke_event_role)

pub Keeps-revoke_role :
    (ctx : Context) (user_id tenant_public_id event_public_id : String)
    → Keeps IsSound (Members.revoke_role ctx user_id tenant_public_id event_public_id)
unfolding Members.revoke_role
Keeps-revoke_role ctx user_id tenant_public_id event_public_id =
    search (read_rules, Keeps-revoke_in_tenant, Keeps-revoke_in_event) depth 14

Keeps-store_invitation :
    (ctx : Context) (invitation : Invitation) (token : String × Hash)
    → Keeps IsSound (Invitations.store_invitation ctx invitation token)
unfolding Invitations.store_invitation
Keeps-store_invitation ctx invitation (token, token_hash) =
    search (read_rules, Keeps-with_current_permission, Keeps-create_invitation)

pub Keeps-create_tenant_invitation :
    (p : Platform) (ttl : ℕ) (ctx : Context) (input : CreateTenantInvitationInput)
    → Keeps IsSound (Invitations.create_tenant_invitation p ttl ctx input)
unfolding Invitations.create_tenant_invitation
Keeps-create_tenant_invitation p ttl ctx input =
    search (read_rules, Keeps-store_invitation) depth 20

Keeps-revoke_one :
    (p : Platform) (tenant_id invitation_id : String) (ctx : Context)
    → Keeps IsSound (Invitations.revoke_one p tenant_id invitation_id ctx)
unfolding Invitations.revoke_one
Keeps-revoke_one p tenant_id invitation_id ctx = search (read_rules, Keeps-mark_revoked) depth 14

pub Keeps-revoke_tenant_invitation :
    (p : Platform) (ctx : Context) (tenant_public_id invitation_id : String)
    → Keeps IsSound (Invitations.revoke_tenant_invitation p ctx tenant_public_id invitation_id)
unfolding Invitations.revoke_tenant_invitation
Keeps-revoke_tenant_invitation p ctx tenant_public_id invitation_id =
    search (read_rules, Keeps-run_in_transaction, Keeps-revoke_one) depth 14

module _ {P : Db → Type 0} where
  judged : (r : Result Invitation) → Keeps P (Invitations.judge r)
  judged (ok i) = Keeps-pure tt
  judged (err e) = Keeps-fail _

Keeps-accept_one :
    (p : Platform) (tenant : Tenant) (subject token : String) (ctx : Context)
    → Keeps IsSound (Invitations.accept_one p tenant subject token ctx)
unfolding Invitations.accept_one
Keeps-accept_one p tenant subject token ctx =
    search (read_rules, judged, Keeps-add_tenant_member, Keeps-mark_accepted) depth 20

pub Keeps-accept_tenant_invitation :
    (p : Platform) (ctx : Context) (tenant_public_id token : String)
    → Keeps IsSound (Invitations.accept_tenant_invitation p ctx tenant_public_id token)
unfolding Invitations.accept_tenant_invitation
Keeps-accept_tenant_invitation p ctx tenant_public_id token =
    search (read_rules, Keeps-run_in_transaction, Keeps-accept_one) depth 14

module _ {P : Db → Type 0} where
  pub Keeps-list_tenant_invitations :
      (p : Platform) (ctx : Context) (tenant_public_id : String)
      → Keeps P (Invitations.list_tenant_invitations p ctx tenant_public_id)
  unfolding Invitations.list_tenant_invitations
  Keeps-list_tenant_invitations p ctx tenant_public_id = search read_rules

  Keeps-list_by_user_of :
      (ctx : Context) (user_id : String) → Keeps P (Members.list_by_user ctx user_id)
  unfolding Members.list_by_user
  Keeps-list_by_user_of ctx user_id = elim (Option-cases (tenant_public_id_from_context ctx)) [
    | inl e ↦ rw (e, Members.list_by_user) (Keeps-fail _)
    | inr (t, e) ↦ rw (e, Members.list_by_user) (search read_rules depth 14)
  ]

  Keeps-list_by_tenant_of :
      (ctx : Context) (tenant_public_id : String)
      → Keeps P (Members.list_by_tenant ctx tenant_public_id)
  unfolding Members.list_by_tenant
  Keeps-list_by_tenant_of ctx tenant_public_id = search read_rules

  pub Keeps-list_memberships_of :
      (ctx : Context) (tenant_public_id user_id : String)
      → Keeps P (Members.list_memberships ctx tenant_public_id user_id)
  unfolding Members.list_memberships
  Keeps-list_memberships_of ctx tenant_public_id user_id =
      search (read_rules, Keeps-list_by_user_of, Keeps-list_by_tenant_of) depth 14
