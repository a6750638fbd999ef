-- ===== src/Transport/Http/Boundary.antt =====
-- The tenant and the user that a request names: internal/relation/infra/httpapi/handler.go.
use tolo_tenant_management.Prelude.{
  ◌≡◌, ◌≢◌, refl, sym, ap, ◌∙◌, String, false, none, some, List, [], ◌∷◌, All, inl, inr, arith,
  str_eq_refl, Bool-cases,
}
use tolo_tenant_management.Text.{trim_space, is_empty}
use tolo_tenant_management.Text.Trim.{trim_space_idem}
use tolo_tenant_management.Failure.{Err, Result, ok, err}
use tolo_tenant_management.Context.{
  Context, nonblank, ensure, with_tenant_public_id, tenant_public_id_from_context,
}
use tolo_tenant_management.Domain.Membership.{Membership}
use tolo_tenant_management.Exec
use tolo_tenant_management.Exec.{World, Exec, ◌>>=◌}
use tolo_tenant_management.Repository.Memberships.{find_membership}
use tolo_tenant_management.Repository.Tenants.{find_tenant_by_public_id}
use tolo_tenant_management.RelationService.Gates.{resolve_tenant}
use tolo_tenant_management.RelationService.Members
use tolo_tenant_management.Guarantees.Isolation.{Shown, memberships_stay_within_tenant}
use tolo_tenant_management.Transport.Http
use tolo_tenant_management.Transport.Http.{
  MembershipBody, memberships, membership_body, memberships_body, reply, write_error,
}

-- a request without claims reads the tenant that it names
bound_to :
    (ctx : Context) (tenant_id : String)
    → ctx.claims ≡ none
    → is_empty (trim_space tenant_id) ≡ false
    → tenant_public_id_from_context (with_tenant_public_id ctx (trim_space tenant_id))
      ≡ some (trim_space tenant_id)
unfolding tenant_public_id_from_context with_tenant_public_id nonblank
bound_to ctx tenant_id h e = rw (h, trim_space_idem tenant_id, e) refl

ensured :
    (c : Context) (t : String)
    → tenant_public_id_from_context c ≡ some t
    → is_empty t ≡ false
    → ensure c t ≡ ok tt
unfolding ensure
ensured c t e b = rw (e, b, str_eq_refl t) refl

-- the context that the use case is called with
abbrev pub named : Context → String → Context
named ctx tenant_id = with_tenant_public_id ctx (trim_space tenant_id)

-- the tenant by its public ID, and the user's membership in it, if there is one
abbrev pub one_user : Context → String → String → Exec (List Membership)
one_user c t u =
    find_tenant_by_public_id c t >>= λ tenant. Members.one_or_none (find_membership c tenant.id u)

asked :
    (c : Context) (t u : String)
    → tenant_public_id_from_context c ≡ some t
    → is_empty t ≡ false
    → is_empty u ≡ false
    → Members.list_memberships c "" u ≡ one_user c t u
unfolding Members.list_memberships Members.list_by_user resolve_tenant Exec.handle Exec.lift
asked c t u e b k = rw (k, e, Members.list_by_user) (rw (b, ensured c t e b) refl)

-- A request without claims that names a tenant and a user is answered by the tenant's row and the
-- user's membership in it alone: with blanks around the names cut off, it asks for the tenant, then
-- for the membership, and reports what this gives. Neither the filter nor the named tenant is refused
-- before that.
pub request_asks_one_user :
    (ctx : Context) (tenant_id user_id : String) (w : World)
    → ctx.claims ≡ none
    → is_empty (trim_space tenant_id) ≡ false
    → is_empty (trim_space user_id) ≡ false
    → Http.list_memberships ctx tenant_id user_id w ≡ (
        let (r, w') =
          one_user (named ctx tenant_id) (trim_space tenant_id) (trim_space user_id) w in
        (reply r, w'))
unfolding Http.list_memberships
request_asks_one_user ctx tenant_id user_id w h t u =
    rw
      (
        t,
        u,
        asked (named ctx tenant_id) (trim_space tenant_id) (trim_space user_id)
            (bound_to ctx tenant_id h t) t u,
      )
      refl

-- what a body may show
abbrev pub IsAsked : String → String → MembershipBody → Type 0
IsAsked tenant_id user_id m =
    (m.tenant_id ≡ trim_space tenant_id) × (m.user_id ≡ trim_space user_id)

error-not_listing :
    (e : Err) (body : List MembershipBody) → (write_error e).written ≢ some (200, memberships body)
unfolding write_error
error-not_listing e body h = ground (arith, h)

some-eq : (a b : String) → some a ≡ some b → a ≡ b
some-eq a b h = cc

module _ (ctx : Context) (tenant_id user_id : String) (unclaimed : ctx.claims ≡ none)
    (t : is_empty (trim_space tenant_id) ≡ false) (u : is_empty (trim_space user_id) ≡ false) where
  All-body :
      (ms : List Membership)
      → All (Shown (named ctx tenant_id) "" (trim_space user_id)) ms
      → All (IsAsked tenant_id user_id) (memberships_body ms)
  unfolding memberships_body
  All-body [] h = tt
  All-body (m ∷ ms) h =
      ((some-eq _ _ (sym h.0.0 ∙ bound_to ctx tenant_id unclaimed t), h.0.2 u), All-body ms h.1)

  replied :
      (r : Result (List Membership)) (body : List MembershipBody)
      → ((ms : List Membership)
          → r ≡ ok ms
          → All (Shown (named ctx tenant_id) "" (trim_space user_id)) ms)
      → (reply r).written ≡ some (200, memberships body)
      → All (IsAsked tenant_id user_id) body
  unfolding reply
  replied (ok ms) body shown e =
      let same : memberships_body ms ≡ body = cc in rw (sym same) (All-body ms (shown ms refl))
  replied (err x) body shown e = absurd (error-not_listing x body e)

-- A request without claims that is answered with memberships is answered with those of the tenant
-- and the user that its path names, blanks around the names cut off, and no others.
pub request_shows_named_user :
    (ctx : Context) (tenant_id user_id : String) (w : World) (body : List MembershipBody)
    → ctx.claims ≡ none
    → (Http.list_memberships ctx tenant_id user_id w).0.written ≡ some (200, memberships body)
    → All (IsAsked tenant_id user_id) body
unfolding Http.list_memberships
request_shows_named_user ctx tenant_id user_id w body h e =
    elim (Bool-cases (is_empty (trim_space tenant_id))) [
      | inl t ↦ ground (arith, t, e)
      | inr t ↦ elim (Bool-cases (is_empty (trim_space user_id))) [
        | inl u ↦ ground (arith, t, u, e)
        | inr u ↦
            let run : Result (List Membership) × World =
              Members.list_memberships (named ctx tenant_id) "" (trim_space user_id) w in
            replied ctx tenant_id user_id h t u run.0 body
              (λ ms made.
                memberships_stay_within_tenant (named ctx tenant_id) "" (trim_space user_id) w ms
                  run.1 (ap (λ r. (r, run.1)) made))
              (rw (t, u) at e)
      ]
    ]
