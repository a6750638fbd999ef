-- ===== src/Store/Events.antt =====
-- The statements on `events` in internal/tenant/infra/db/event.go.
use Prim.Native.String.{compare}
use text.Mathlib.Text.{is_le}
use tolo_tenant_management.Prelude.{
  ℕ, String, Bool, not, ◌&&◌, ◌||◌, Option, List, [], ◌∷◌, str_eq, find, select, count_of, any,
  rewrite, take, sort, if◌then◌else◌,
}
use tolo_tenant_management.Failure.{PgError, Result, ok}
use tolo_tenant_management.Store.{EventRow, Db, checked, unique, too_long}

-- an unarchived tenant of that ID
abbrev pub open_tenant : String → Db → Bool
open_tenant id d = any (λ t. str_eq t.id id && not t.archived) d.tenants

abbrev pub insert_checks : EventRow → Db → List (Bool × PgError)
insert_checks e d =
    too_long 16 e.public_id
    ∷ too_long 16 e.tenant_public_id
    ∷ too_long 255 e.name
    ∷ too_long 32 e.status
    ∷ (any (λ o. str_eq o.id e.id) d.events, unique "events_pkey")
    ∷ (any (λ o. str_eq o.public_id e.public_id) d.events, unique "events_public_id_key")
    ∷ []

-- INSERT … SELECT … FROM tenants WHERE id = $3 AND archived = FALSE: no row where none fits.
unfoldable pub insert : EventRow → Db → Result ℕ × Db
insert e d =
    if not (open_tenant e.tenant_id d)
    then (ok 0, d)
    else checked (insert_checks e d) 1 (record d { events = e ∷ d.events }) d

abbrev pub writable : String → Db → EventRow → Bool
writable id d e = str_eq e.id id && open_tenant e.tenant_id d

abbrev pub update_checks : String → String → List (Bool × PgError)
update_checks name status = too_long 255 name ∷ too_long 32 status ∷ []

unfoldable pub update : String → String → String → Db → Result ℕ × Db
update id name status d =
    let here = writable id d in
    if not (any here d.events)
    then (ok 0, d)
    else checked (update_checks name status) (count_of here d.events)
        (record d {
          events = rewrite here (λ e. record e { name = name; status = status }) d.events;
        })
        d

unfoldable pub by_id : String → Db → Option EventRow
by_id id d = find (λ e. str_eq e.id id) d.events

unfoldable pub by_public_id : String → Db → Option EventRow
by_public_id public_id d = find (λ e. str_eq e.public_id public_id) d.events

-- ORDER BY id: the order of the canonical text of a UUID is that of the UUID.
abbrev pub earlier : EventRow → EventRow → Bool
earlier a b = is_le (compare a.id b.id)

abbrev pub listed : String → Bool → EventRow → Bool
listed tenant_id include_archived e =
    str_eq e.tenant_id tenant_id && (include_archived || not (str_eq e.status "archived"))

unfoldable pub list : String → Bool → ℕ → Db → List EventRow
list tenant_id include_archived limit d =
    take limit (sort earlier (select (listed tenant_id include_archived) d.events))
