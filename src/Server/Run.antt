-- ===== src/Server/Run.antt =====
-- run of cmd/server/main.go, with Setup of internal/telemetry/telemetry.go and Open of
-- internal/infra/db/open.go. What the libraries, the database and the operating system answer is
-- given ahead of time, and the actions of the process are listed in their order.
pub mod Releases
use tolo_tenant_management.Prelude.{String, Bool, true, false, List, [], ◌∷◌, ◌++◌, if◌then◌else◌}
use tolo_tenant_management.Text.{is_empty}
use tolo_tenant_management.Failure.{Err, opaque, wrap, Result, ok, err, wrapped}
use tolo_tenant_management.Logging.Handler.{Options}
use tolo_tenant_management.Server.Config.{
  Environment, JwtSettings, logger_options, jwt_settings, server_addr, endpoint_configured,
}

-- how the server ends: ListenAndServe returns, with an error or as it was closed, or a signal comes
-- and Shutdown returns, behind the call of ListenAndServe or ahead of it
pub data End : Type 0 where
  failed : Err → End
  closed : End
  signalled : Result (Unit {0}) → End
  signalled_early : Result (Unit {0}) → End

-- `open_` and `ping` are answers of the database driver, `resource` and `exporter` of OpenTelemetry,
-- and `handler` of NewHandlerWithJWTSettings.
pub record Answers : Type 0 where
  pub resource : Result (Unit {0})
  pub exporter : Result (Unit {0})
  pub open_ : Result (Unit {0})
  pub ping : Result (Unit {0})
  pub handler : JwtSettings → Result (Unit {0})
  pub end : End

pub data Action : Type 0 where
  logger_installed : Options → Action
  tracing_started : Bool → Action
  tracing_flushed : Action
  database_opened : Action
  database_closed : Action
  listening : String → Action

abbrev pub Outcome : Type 0
Outcome = Result (Unit {0}) × List Action

-- an action, and then the rest
abbrev pub before : Action → Outcome → Outcome
before a (r, actions) = (r, a ∷ actions)

-- `defer`
abbrev pub deferred : Action → Outcome → Outcome
deferred a (r, actions) = (r, actions ++ (a ∷ []))

abbrev pub ended : End → Result (Unit {0})
ended (failed e) = err e
ended closed = ok tt
ended (signalled r) = r
ended (signalled_early r) = r

-- the goroutine calls ListenAndServe, unless the signal is ahead of it
abbrev pub is_early : End → Bool
is_early (signalled_early r) = true
is_early _ = false

abbrev pub serve : Environment → End → Outcome
serve env e = (ended e, if is_early e then [] else listening (server_addr env) ∷ [])

abbrev pub serve_handler : Environment → End → Result (Unit {0}) → Outcome
serve_handler env e (err x) = (err (wrap x), [])
serve_handler env e (ok _) = serve env e

abbrev pub with_database : Environment → Answers → Outcome
with_database env a = serve_handler env a.end (a.handler (jwt_settings env))

-- `Open`: the pool of a database that does not answer is closed again.
abbrev pub pinged : Environment → Answers → Result (Unit {0}) → Outcome
pinged env a (err x) = (err (wrap x), database_closed ∷ [])
pinged env a (ok _) = deferred database_closed (with_database env a)

abbrev pub opened : Environment → Answers → Result (Unit {0}) → Outcome
opened env a (err x) = (err (wrap x), [])
opened env a (ok _) = before database_opened (pinged env a a.ping)

abbrev pub traced : Environment → Answers → Bool → Outcome
traced env a exporting =
    before (tracing_started exporting) (deferred tracing_flushed (opened env a a.open_))

abbrev pub exported : Environment → Answers → Result (Unit {0}) → Result (Unit {0}) → Outcome
exported env a (err x) exporter = (err (wrap (wrap x)), [])
exported env a (ok _) (err x) = (err (wrap (wrap x)), [])
exported env a (ok _) (ok _) = traced env a (endpoint_configured env)

-- `Setup`, and what comes behind it
abbrev pub set_up : Environment → Answers → Outcome
set_up env a =
    if endpoint_configured env
    then exported env a a.resource a.exporter
    else traced env a (endpoint_configured env)

abbrev pub configured : Environment → Answers → Outcome
configured env a =
    if is_empty (env "DATABASE_URL")
    then (err (opaque "DATABASE_URL is required"), [])
    else set_up env a

abbrev pub logged : Environment → Answers → Result Options → Outcome
logged env a (err x) = (err x, [])
logged env a (ok options) = before (logger_installed options) (configured env a)

unfoldable pub run : Environment → Answers → Outcome
unfolding logger_options jwt_settings server_addr endpoint_configured
run env a = logged env a (logger_options env)
