-- ===== src/Server/Run/Releases.antt =====
-- What is opened is closed, in the reverse order, however run ends: cmd/server/main.go.
use tolo_tenant_management.Prelude.{
  ◌≡◌, refl, ◌∙◌, ◌||◌, ◌++◌, any, Bool, true, false, Option, none, some, List, [], ◌∷◌, inl, inr,
  arith, Bool-cases, Option-cases,
}
use tolo_tenant_management.Text.{is_empty}
use tolo_tenant_management.Failure.{Result, ok, err}
use tolo_tenant_management.Logging.Handler.{Options}
use tolo_tenant_management.Server.Config.{
  Environment, logger_options, jwt_settings, endpoint_configured,
}
use tolo_tenant_management.Server.Run.{
  is_early, Answers, Action, Outcome, logger_installed, tracing_started, tracing_flushed,
  database_opened, database_closed, listening, run, before, deferred, serve_handler, with_database,
  pinged, opened, traced, exported, set_up, configured, logged,
}

-- what the process holds
pub data Holding : Type 0 where
  nothing : Holding
  logger : Holding
  tracing : Holding
  database : Holding

-- the next state, where an action is in order
abbrev pub next : Holding → Action → Option Holding
next nothing (logger_installed options) = some logger
next logger (tracing_started exporting) = some tracing
next tracing database_opened = some database
next database (listening addr) = some database
next database database_closed = some tracing
next tracing tracing_flushed = some logger
next _ _ = none

abbrev pub replay : Holding → List Action → Option Holding
replay h [] = some h
replay h (a ∷ more) =
    let rest = λ (g : Holding). replay g more in elim (next h a) [ none ↦ none | some g ↦ rest g ]

abbrev pub is_listening : Action → Bool
is_listening (listening addr) = true
is_listening (logger_installed options) = false
is_listening (tracing_started exporting) = false
is_listening tracing_flushed = false
is_listening database_opened = false
is_listening database_closed = false

-- From one state, the actions are in order and lead to another; without an error the process has
-- listened, unless the signal came early.
pub record Runs (early : Bool) (from to : Holding) (o : Outcome) : Type 0 where
  pub replayed : replay from o.1 ≡ some to
  pub served : o.0 ≡ ok tt → (early || any is_listening o.1) ≡ true

or_true : (b : Bool) → (b || true) ≡ true
or_true b = ground arith

replay-snoc :
    (h : Holding) (xs : List Action) (a : Action) {g : Holding}
    → replay h xs ≡ some g
    → replay h (xs ++ (a ∷ [])) ≡ next g a
replay-snoc h [] a {g} e =
    let same : h ≡ g = cc in
    rw same (elim (Option-cases (next g a)) [
      | inl n ↦ rw (n, replay) refl
      | inr (k, n) ↦ rw (n, replay) refl
    ])
replay-snoc h (x ∷ xs) a e = elim (Option-cases (next h x)) [
  | inl n ↦ ground (arith, rw (n, replay) at e)
  | inr (k, n) ↦ rw (n, replay) (replay-snoc k xs a (rw (n, replay) at e))
]

any-snoc :
    (xs : List Action) (a : Action)
    → any is_listening xs ≡ true
    → any is_listening (xs ++ (a ∷ [])) ≡ true
any-snoc [] a h = cc
any-snoc (x ∷ xs) a h = ground (arith, any-snoc xs a)

Runs-deferred :
    {early : Bool} {h g k : Holding} (a : Action) (o : Outcome)
    → next g a ≡ some k
    → Runs early h g o
    → Runs early h k (deferred a o)
Runs-deferred {early} {h} a o e r = record {
  replayed = replay-snoc h o.1 a r.replayed ∙ e;
  served = λ k. elim (Bool-cases early) [
    | inl y ↦ rw y refl
    | inr n ↦ rw n (any-snoc o.1 a (rw n at (r.served k)))
  ];
}

Runs-before :
    {early : Bool} {h g k : Holding} (a : Action) (o : Outcome)
    → next h a ≡ some g
    → Runs early g k o
    → Runs early h k (before a o)
Runs-before {early} a o e r = record {
  replayed = rw (e, replay) r.replayed;
  served = λ k. elim (Bool-cases (is_listening a)) [
    | inl l ↦ rw l (or_true early)
    | inr l ↦ rw l (r.served k)
  ];
}

module _ (env : Environment) (a : Answers) where
  Runs-serve :
      (r : Result (Unit {0})) → Runs (is_early a.end) database database (serve_handler env a.end r)
  Runs-serve (err x) = record { replayed = refl; served = λ e. cc }
  Runs-serve (ok u) = elim (Bool-cases (is_early a.end)) [
    | inl e ↦ rw e (record { replayed = refl; served = λ k. refl })
    | inr e ↦ rw e (record { replayed = refl; served = λ k. refl })
  ]

  Runs-pinged : (r : Result (Unit {0})) → Runs (is_early a.end) database tracing (pinged env a r)
  Runs-pinged (err x) = record { replayed = refl; served = λ e. cc }
  Runs-pinged (ok u) =
      Runs-deferred database_closed (with_database env a) refl
        (Runs-serve (a.handler (jwt_settings env)))

  Runs-opened : (r : Result (Unit {0})) → Runs (is_early a.end) tracing tracing (opened env a r)
  Runs-opened (err x) = record { replayed = refl; served = λ e. cc }
  Runs-opened (ok u) = Runs-before database_opened (pinged env a a.ping) refl (Runs-pinged a.ping)

  Runs-traced : (exporting : Bool) → Runs (is_early a.end) logger logger (traced env a exporting)
  Runs-traced exporting =
      Runs-before (tracing_started exporting) (deferred tracing_flushed (opened env a a.open_)) refl
        (Runs-deferred tracing_flushed (opened env a a.open_) refl (Runs-opened a.open_))

  Runs-exported :
      (r s : Result (Unit {0})) → Runs (is_early a.end) logger logger (exported env a r s)
  Runs-exported (err x) s = record { replayed = refl; served = λ e. cc }
  Runs-exported (ok u) (err x) = record { replayed = refl; served = λ e. cc }
  Runs-exported (ok u) (ok v) = Runs-traced (endpoint_configured env)

  Runs-set_up : Runs (is_early a.end) logger logger (set_up env a)
  Runs-set_up = elim (Bool-cases (endpoint_configured env)) [
    | inl e ↦ rw e (Runs-exported a.resource a.exporter)
    | inr e ↦ rw e (Runs-traced false)
  ]

  Runs-configured : Runs (is_early a.end) logger logger (configured env a)
  Runs-configured = elim (Bool-cases (is_empty (env "DATABASE_URL"))) [
    | inl e ↦ rw e (record { replayed = refl; served = λ k. cc })
    | inr e ↦ rw e Runs-set_up
  ]

  -- what is held at the end: the logger, where its level could be read
  abbrev pub left_over : Result Options → Holding
  left_over (err x) = nothing
  left_over (ok options) = logger

  Runs-logged : (r : Result Options) → Runs (is_early a.end) nothing (left_over r) (logged env a r)
  Runs-logged (err x) = record { replayed = refl; served = λ e. cc }
  Runs-logged (ok options) =
      Runs-before (logger_installed options) (configured env a) refl Runs-configured

-- Whatever the environment holds and the libraries, the database and the operating system answer, run
-- returns with everything released: the logger is installed first, tracing is started before the
-- database is opened, the process listens only between the opening and the closing of the database,
-- and tracing is flushed last. Where run returns no error, the process has called ListenAndServe, or a
-- signal came before it could.
pub everything_is_released :
    (env : Environment) (a : Answers)
    → Runs (is_early a.end) nothing (left_over env a (logger_options env)) (run env a)
unfolding run
everything_is_released env a = Runs-logged env a (logger_options env)
