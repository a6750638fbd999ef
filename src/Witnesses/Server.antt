-- ===== src/Witnesses/Server.antt =====
-- The theorem on the start of the process, at one that a signal stops.
use tolo_tenant_management.Prelude.{false, str_eq, if◌then◌else◌}
use tolo_tenant_management.Failure.{ok}
use tolo_tenant_management.Server.Config
use tolo_tenant_management.Server.Config.{Environment}
use tolo_tenant_management.Server.Run
use tolo_tenant_management.Server.Run.{Answers, signalled}
use tolo_tenant_management.Server.Run.Releases.{Runs, nothing, left_over, everything_is_released}

-- a database is named, and nothing else
abbrev environment : Environment
environment key = if str_eq key "DATABASE_URL" then "postgres://db" else ""

abbrev answers : Answers
answers = record {
  resource = ok tt;
  exporter = ok tt;
  open_ = ok tt;
  ping = ok tt;
  handler = λ settings. ok tt;
  end = signalled (ok tt);
}

everything_is_released_example :
    Runs false nothing
      (left_over environment answers (Config.logger_options environment))
      (Run.run environment answers)
everything_is_released_example = everything_is_released environment answers
