-- ===== src/Context.antt =====
-- internal/tenantctx/tenantctx.go. A `context.Context` holds what the program reads from it: the
-- claims of a verified internal JWT, the tenant that a transport bound, and whether a database
-- transaction travels in it.
use tolo_tenant_management.Prelude.{String, Bool, not, Option, none, some, str_eq, if◌then◌else◌}
use tolo_tenant_management.Text.{trim_space, is_empty}
use tolo_tenant_management.Failure.{Result, ok, err, sentinel, context_missing, context_mismatch}

pub record Claims : Type 0 where
  pub subject : String
  pub tenant_public_id : String

pub record Context : Type 0 where
  pub claims : Option Claims
  pub bound : Option String
  pub transaction : Bool

-- a text without its outer spaces, if anything is left of it
unfoldable pub nonblank : String → Option String
unfolding trim_space
nonblank s = let trimmed = trim_space s in if is_empty trimmed then none else some trimmed

unfoldable pub subject_from_context : Context → Option String
unfolding nonblank
subject_from_context ctx = elim ctx.claims [ none ↦ none | some c ↦ nonblank c.subject ]

unfoldable pub with_tenant_public_id : Context → String → Context
with_tenant_public_id ctx tenant_public_id = record ctx { bound = some tenant_public_id }

abbrev pub claimed : Context → Option String
claimed ctx = elim ctx.claims [ none ↦ none | some c ↦ nonblank c.tenant_public_id ]

abbrev pub bound_tenant : Context → Option String
bound_tenant ctx = elim ctx.bound [ none ↦ none | some b ↦ nonblank b ]

unfoldable pub tenant_public_id_from_context : Context → Option String
unfolding nonblank
tenant_public_id_from_context ctx = elim (claimed ctx) [ some t ↦ some t | none ↦ bound_tenant ctx ]

-- `!ok || id == ""` cannot hold through its second half, as the reader gives no blank text.
abbrev pub matches : Result (Unit {0}) → Option String → String → Result (Unit {0})
matches absent none id = absent
matches absent (some t) id =
    if is_empty t
    then absent
    else if not (str_eq t id)
    then err (sentinel context_mismatch)
    else ok tt

unfoldable pub ensure : Context → String → Result (Unit {0})
unfolding tenant_public_id_from_context
ensure ctx id = matches (err (sentinel context_missing)) (tenant_public_id_from_context ctx) id

unfoldable pub verify_ownership : Context → String → Result (Unit {0})
unfolding tenant_public_id_from_context
verify_ownership ctx id = matches (ok tt) (tenant_public_id_from_context ctx) id
