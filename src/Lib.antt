-- ===== src/Lib.antt =====
-- Tenants, their events, their members and their invitations: the tenant management service of
-- Tolo, a Go program over PostgreSQL.
--
-- A caller reaches a use case of TenantService (internal/tenant/application) or RelationService
-- (internal/relation/application), which checks its input, reads and writes the tables through
-- repositories (internal/*/infra/db), mostly inside one transaction (internal/infra/db), and answers
-- a value of the domain (internal/*/domain) or an error. Who calls, and for which tenant, travels in
-- the context (internal/tenantctx). The transports (internal/*/infra/connect and
-- internal/relation/infra/httpapi) turn requests into calls and errors into codes, and the process
-- (cmd/server) logs through internal/logging.
--
--   Failure          the sentinel errors of all packages, wrapping, errors.Is and errors.As
--   Text             the functions of strings, unicode, utf8 and strconv that are called
--   Domain           internal/tenant/domain and internal/relation/domain, a module for each file or two
--   Context          internal/tenantctx/tenantctx.go
--   Store            the tables of migrations/ as lists of rows, and each SQL statement on them, with
--                    the constraints it may violate, as a function from tables to an answer and tables
--   Exec             code that talks to the database: from a world to a result and a world; a world is
--                    the tables and the faults that are to come, one for a round trip
--   Transaction      internal/infra/db/transaction.go
--   Repository       the PostgreSQL repositories, a function for each method
--   Token            internal/identifier/identifier.go and internal/onetimetoken/token.go; the clock, the
--                    UUID library, the randomness and SHA-256 are fields of a Platform
--   Authorizer       internal/relation/application/authorizer.go
--   TenantService    internal/tenant/application/tenant.go
--   RelationService  internal/relation/application/relation.go
--   System           a call of any use case, and the sequences of calls
--   Invariant        what the tables satisfy at all times, for each statement, method and use case
--   Guarantees       what a caller may conclude from a value that was returned
--   Transport        what leaves the process: Errors for internal/infra/connect/error.go, Tenant and
--                    Relation for internal/*/infra/connect/service.go, and Http for
--                    internal/relation/infra/httpapi/handler.go
--   Logging          internal/logging/handler.go: Level, Attr, Reserved, and Handler over Json, which is
--                    the part of log/slog's JSON handler that it stands on
--   Server           Config and Run for cmd/server/main.go and the settings of internal/telemetry,
--                    internal/infra/connect/server.go and internal/infra/db/open.go
--   Sample, Witnesses  small tables and callers, and the theorems at them
--
-- Functions keep the source's names in snake case; a Go function that returns a value and an error
-- returns a Result or an Exec. Strings are valid UTF-8. A time is a number of ticks. An enum has a
-- constructor for each constant and `other` for the values past them. Loops are recursion on lists;
-- the only fuel is that of `decimal`, one more than the number, and each round divides it by ten.
--
-- Calls run one at a time: row locks and the advisory lock are round trips without effect, and what
-- two overlapping transactions see of each other is PostgreSQL's matter. A fault is an error of the
-- server, of the driver or of the context, never one of the program's own; the statement is then not
-- carried out, or it is, COMMIT too, and only its reply is lost. The id columns are texts.
-- The attributes of a log record have their values resolved, and run is given the answers of the
-- libraries and of the operating system ahead of time.
-- Not modelled: the generated code (gen), the interceptors that verify tokens and trace calls
-- (third-party, as the mux and the health check beside them), the routing and the writing of HTTP,
-- the bytes of a log line, the wiring of OpenTelemetry and otelsql, panics, and the texts that
-- wrapping adds to errors.
mod Prelude
mod Sample
mod Witnesses
pub mod Failure
pub mod Text
pub mod Domain
pub mod Context
pub mod Store
pub mod Invariant
pub mod Exec
pub mod Transaction
pub mod Repository
pub mod Token
pub mod Authorizer
pub mod TenantService
pub mod RelationService
pub mod System
pub mod Transport
pub mod Logging
pub mod Server
pub mod Guarantees
