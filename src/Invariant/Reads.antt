-- ===== src/Invariant/Reads.antt =====
-- The calls that only read keep every assertion on the tables.
use tolo_tenant_management.Prelude.{ℕ, String, Bool, Option, List, [], ◌∷◌, inl, inr, Option-cases}
use tolo_tenant_management.Context.{Context, subject_from_context}
use tolo_tenant_management.Domain.Tenant.{Hash}
use tolo_tenant_management.Domain.Membership.{Membership}
use tolo_tenant_management.Store.{Db, TenantRow, EventRow, MembershipRow, InvitationRow}
use tolo_tenant_management.Store.Memberships.{MembershipView}
use tolo_tenant_management.Exec.Triple.{
  Keeps, Keeps-statement, Keeps-pure, Keeps-fail, Keeps-handle, keeps_rules,
}
use tolo_tenant_management.Repository.{get}
use tolo_tenant_management.Repository.Tenants as Tenants
use tolo_tenant_management.Repository.Events as Events
use tolo_tenant_management.Repository.Memberships as Memberships
use tolo_tenant_management.Repository.Invitations as Invitations
use tolo_tenant_management.Authorizer.{current_role, allowed, require}
use tolo_tenant_management.RelationService.Gates as Gates
use tolo_tenant_management.TenantService.Administration as Administration
use tolo_tenant_management.TenantService.Events as TenantEvents

module _ {P : Db → Type 0} where
  pub Keeps-get : {R : Type 0} (f : Db → Option R) → Keeps P (get f)
  Keeps-get f = Keeps-statement _ (λ d h. h)

  pub Keeps-find_tenant :
      (ctx : Context) (f : Db → Option TenantRow) → Keeps P (Tenants.find_tenant ctx f)
  unfolding Tenants.find_tenant
  Keeps-find_tenant ctx f = search (keeps_rules, Keeps-get)

  pub Keeps-find_tenant_by_id :
      (ctx : Context) (id : String) → Keeps P (Tenants.find_tenant_by_id ctx id)
  unfolding Tenants.find_tenant_by_id
  Keeps-find_tenant_by_id ctx id = Keeps-find_tenant ctx _

  pub Keeps-find_tenant_by_public_id :
      (ctx : Context) (public_id : String)
      → Keeps P (Tenants.find_tenant_by_public_id ctx public_id)
  unfolding Tenants.find_tenant_by_public_id
  Keeps-find_tenant_by_public_id ctx public_id = Keeps-find_tenant ctx _

  pub Keeps-find_tenant_for_update :
      (ctx : Context) (public_id : String)
      → Keeps P (Tenants.find_tenant_by_public_id_for_update ctx public_id)
  unfolding Tenants.find_tenant_by_public_id_for_update
  Keeps-find_tenant_for_update ctx public_id = search (keeps_rules, Keeps-get)

  pub Keeps-find_tenant_public_id :
      (subdomain : String) → Keeps P (Tenants.find_tenant_public_id_by_subdomain subdomain)
  unfolding Tenants.find_tenant_public_id_by_subdomain
  Keeps-find_tenant_public_id subdomain = search (keeps_rules, Keeps-get)

  pub Keeps-find_event :
      (ctx : Context) (f : Db → Option EventRow) → Keeps P (Events.find_event ctx f)
  unfolding Events.find_event
  Keeps-find_event ctx f = search (keeps_rules, Keeps-get)

  pub Keeps-find_event_by_id :
      (ctx : Context) (id : String) → Keeps P (Events.find_event_by_id ctx id)
  unfolding Events.find_event_by_id
  Keeps-find_event_by_id ctx id = Keeps-find_event ctx _

  pub Keeps-find_event_by_public_id :
      (ctx : Context) (public_id : String) → Keeps P (Events.find_event_by_public_id ctx public_id)
  unfolding Events.find_event_by_public_id
  Keeps-find_event_by_public_id ctx public_id = Keeps-find_event ctx _

  pub Keeps-list_events :
      (ctx : Context) (tenant_id : String) (filter : Events.ListEventsFilter)
      → Keeps P (Events.list_events_by_tenant_id ctx tenant_id filter)
  unfolding Events.list_events_by_tenant_id
  Keeps-list_events ctx tenant_id filter = search keeps_rules

  Keeps-with_roles :
      (ctx : Context) (here : MembershipRow → Bool) (views : List MembershipView)
      → Keeps P (Memberships.with_roles ctx here views)
  Keeps-with_roles ctx here [] = Keeps-pure []
  Keeps-with_roles ctx here (v ∷ vs) = search keeps_rules

  pub Keeps-list_memberships :
      (ctx : Context) (here : MembershipRow → Bool)
      → Keeps P (Memberships.list_memberships ctx here)
  unfolding Memberships.list_memberships
  Keeps-list_memberships ctx here = search (keeps_rules, Keeps-with_roles)

  Keeps-first_or_missing : (ms : List Membership) → Keeps P (Memberships.first_or_missing ms)
  Keeps-first_or_missing [] = Keeps-fail _
  Keeps-first_or_missing (m ∷ ms) = Keeps-pure m

  pub Keeps-find_membership :
      (ctx : Context) (tenant_id user_id : String)
      → Keeps P (Memberships.find_membership ctx tenant_id user_id)
  unfolding Memberships.find_membership
  Keeps-find_membership ctx tenant_id user_id =
      search (keeps_rules, Keeps-list_memberships, Keeps-first_or_missing)

  pub Keeps-list_by_tenant :
      (ctx : Context) (tenant_id : String)
      → Keeps P (Memberships.list_memberships_by_tenant ctx tenant_id)
  unfolding Memberships.list_memberships_by_tenant
  Keeps-list_by_tenant ctx tenant_id = Keeps-list_memberships ctx _

  pub Keeps-lock : (tenant_id : String) → Keeps P (Memberships.lock_tenant_memberships tenant_id)
  unfolding Memberships.lock_tenant_memberships
  Keeps-lock tenant_id = search keeps_rules

  pub Keeps-find_tenant_role :
      (tenant_id user_id : String)
      → Keeps P (Memberships.find_tenant_role_for_share tenant_id user_id)
  unfolding Memberships.find_tenant_role_for_share
  Keeps-find_tenant_role tenant_id user_id = search (keeps_rules, Keeps-get)

  pub Keeps-find_invitation :
      (here : InvitationRow → Bool) → Keeps P (Invitations.find_invitation here)
  unfolding Invitations.find_invitation
  Keeps-find_invitation here = search (keeps_rules, Keeps-get)

  pub Keeps-find_invitation_for_update :
      (tenant_id public_id : String)
      → Keeps P (Invitations.find_invitation_for_update tenant_id public_id)
  unfolding Invitations.find_invitation_for_update
  Keeps-find_invitation_for_update tenant_id public_id = Keeps-find_invitation _

  pub Keeps-find_invitation_by_token :
      (tenant_id : String) (token_hash : Hash)
      → Keeps P (Invitations.find_invitation_by_token_for_update tenant_id token_hash)
  unfolding Invitations.find_invitation_by_token_for_update
  Keeps-find_invitation_by_token tenant_id token_hash = Keeps-find_invitation _

  pub Keeps-list_open :
      (tenant_id : String) (now : ℕ) → Keeps P (Invitations.list_open_invitations tenant_id now)
  unfolding Invitations.list_open_invitations
  Keeps-list_open tenant_id now = search keeps_rules

  pub Keeps-current_role :
      (ctx : Context) (tenant_id : String) → Keeps P (current_role ctx tenant_id)
  unfolding current_role
  Keeps-current_role ctx tenant_id = elim (Option-cases (subject_from_context ctx)) [
    | inl e ↦ rw (e, current_role) (Keeps-fail _)
    | inr (subject, e) ↦ rw (e, current_role) (search (keeps_rules, Keeps-find_tenant_role))
  ]

  pub Keeps-allowed :
      (ctx : Context) (tenant_id scope : String) → Keeps P (allowed ctx tenant_id scope)
  unfolding allowed
  Keeps-allowed ctx tenant_id scope = search (keeps_rules, Keeps-current_role)

  pub Keeps-require :
      (ctx : Context) (tenant_id scope : String) → Keeps P (require ctx tenant_id scope)
  unfolding require
  Keeps-require ctx tenant_id scope = search (keeps_rules, Keeps-allowed)

  pub Keeps-resolve_tenant :
      (ctx : Context) (public_id : String) → Keeps P (Gates.resolve_tenant ctx public_id)
  unfolding Gates.resolve_tenant
  Keeps-resolve_tenant ctx public_id = search (keeps_rules, Keeps-find_tenant_by_public_id)

  pub Keeps-writable_tenant :
      (ctx : Context) (public_id : String) → Keeps P (Gates.writable_tenant ctx public_id)
  unfolding Gates.writable_tenant
  Keeps-writable_tenant ctx public_id = search (keeps_rules, Keeps-resolve_tenant)

  pub Keeps-writable_event :
      (ctx : Context) (public_id : String) → Keeps P (Gates.writable_event ctx public_id)
  unfolding Gates.writable_event
  Keeps-writable_event ctx public_id =
      search (keeps_rules, Keeps-find_event_by_public_id, Keeps-writable_tenant) depth 12

  pub Keeps-owned_tenant :
      (ctx : Context) (public_id : String) → Keeps P (Administration.resolve_tenant ctx public_id)
  unfolding Administration.resolve_tenant
  Keeps-owned_tenant ctx public_id = search (keeps_rules, Keeps-find_tenant_by_public_id)

  pub Keeps-resolve_event :
      (ctx : Context) (public_id : String) → Keeps P (TenantEvents.resolve_event ctx public_id)
  unfolding TenantEvents.resolve_event
  Keeps-resolve_event ctx public_id = search (keeps_rules, Keeps-find_event_by_public_id)

pub ruleset read_rules = (
  keeps_rules, Keeps-get, Keeps-find_tenant_by_id, Keeps-find_tenant_by_public_id,
  Keeps-find_tenant_for_update, Keeps-find_tenant_public_id, Keeps-find_event_by_id,
  Keeps-find_event_by_public_id, Keeps-list_events, Keeps-find_membership, Keeps-list_by_tenant,
  Keeps-lock, Keeps-find_tenant_role, Keeps-find_invitation_for_update,
  Keeps-find_invitation_by_token, Keeps-list_open, Keeps-current_role, Keeps-allowed, Keeps-require,
  Keeps-resolve_tenant, Keeps-writable_tenant, Keeps-writable_event, Keeps-owned_tenant,
  Keeps-resolve_event,
)
