-- ===== src/Exec.antt =====
-- Code that talks to the database: it reads and changes the tables, and may return an error. What
-- was written before an error stays written, unless a transaction rolls it back. Each statement
-- may fail for a reason of the server or of the connection, which the world holds ahead of time.
pub mod Laws
pub mod Triple
use tolo_tenant_management.Prelude.{
  String, Bool, true, false, if◌then◌else◌, Option, none, some, List, [], ◌∷◌,
}
use tolo_tenant_management.Failure.{
  PgError, Err, pg, sentinel, opaque, canceled, deadline_exceeded, Result, ok, err,
}
use tolo_tenant_management.Store.{Db}

-- How a round trip fails by itself: the server refuses it, the context ends, or the driver and the
-- connection have an error that nothing looks into. The statement is not carried out then, unless
-- only its reply was lost.
pub data Fault : Type 0 where
  refused : PgError → Fault
  cancelled timed_out : Fault
  broken : String → Fault
  -- the statement was carried out, and its reply was lost to such a failure
  lost : Fault → Fault

-- the statement was carried out all the same
abbrev pub is_lost : Fault → Bool
is_lost (lost e) = true
is_lost _ = false

abbrev pub raised : Fault → Err
raised (refused e) = pg e
raised cancelled = sentinel canceled
raised timed_out = sentinel deadline_exceeded
raised (broken message) = opaque message
raised (lost e) = raised e

-- `faults` says of each coming statement, BEGIN, COMMIT and ROLLBACK whether it fails; where the
-- list has ended, none does.
pub record World : Type 0 where
  pub db : Db
  pub faults : List (Option Fault)

abbrev pub Exec : Type 0 → Type 0
Exec A = World → Result A × World

module _ {A : Type 0} where
  unfoldable pub pure : A → Exec A
  pure a w = (ok a, w)

  unfoldable pub fail : Err → Exec A
  fail e w = (err e, w)

  unfoldable pub lift : Result A → Exec A
  lift r w = (r, w)

  abbrev pub perform : (Db → Result A × Db) → Exec A
  perform f w = let (r, d) = f w.db in (r, record w { db = d })

  -- one round trip to the server, by the faults that are to come
  abbrev pub round_trip : (Db → Result A × Db) → List (Option Fault) → Exec A
  round_trip f [] w = perform f w
  round_trip f (none ∷ rest) w = perform f (record w { faults = rest })
  round_trip f (some e ∷ rest) w =
      (err (raised e), record w { db = if is_lost e then (f w.db).1 else w.db; faults = rest })

  unfoldable pub statement : (Db → Result A × Db) → Exec A
  statement f w = round_trip f w.faults w

module _ {A B : Type 0} where
  -- the code behind a call, by how the call ended
  abbrev pub resume : (A → Exec B) → (Err → Exec B) → Result A × World → Result B × World
  resume f g (ok a, w) = f a w
  resume f g (err e, w) = g e w

  unfoldable pub handle : Exec A → (A → Exec B) → (Err → Exec B) → Exec B
  unfolding pure fail lift
  handle m f g w = resume f g (m w)

  infixl 10 ◌>>=◌
  -- `if err != nil { return err }` behind a call
  abbrev pub ◌>>=◌ : Exec A → (A → Exec B) → Exec B
  m >>= f = handle m f fail

module _ {B : Type 0} where
  infixl 10 ◌>>◌
  abbrev pub ◌>>◌ : Exec (Unit {0}) → Exec B → Exec B
  m >> n = m >>= λ _. n

module _ {A : Type 0} where
  -- an error that is returned as another one
  abbrev pub map_error : (Err → Err) → Exec A → Exec A
  map_error f m = handle m pure (λ e. fail (f e))

  abbrev pub query : (Db → A) → Exec A
  query f = statement (λ d. (ok (f d), d))
