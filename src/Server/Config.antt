-- ===== src/Server/Config.antt =====
-- What the process reads of its environment: getenv and newLogger of cmd/server/main.go, the names
-- and endpoints of internal/telemetry/telemetry.go, JWTSettings of internal/infra/connect/server.go.
-- An environment gives the empty text for a variable that is not set, as `os.Getenv` does.
use tolo_tenant_management.Prelude.{String, Bool, not, some, false, [], ◌∷◌, any, if◌then◌else◌}
use tolo_tenant_management.Text.{is_empty}
use tolo_tenant_management.Failure.{Result, ok, wrapped, ◌>>=◌}
use tolo_tenant_management.Logging.Level.{parse_level}
use tolo_tenant_management.Logging.Handler.{Options}

abbrev pub Environment : Type 0
Environment = String → String

abbrev pub getenv : Environment → String → String → String
getenv env key fallback = if not (is_empty (env key)) then env key else fallback

unfoldable pub logger_options : Environment → Result Options
unfolding parse_level
logger_options env = wrapped (parse_level (getenv env "LOG_LEVEL" "info")) >>= λ level.
    ok (record { level = some level; add_source = false; project_id = env "GOOGLE_CLOUD_PROJECT" })

pub record JwtSettings : Type 0 where
  pub jwks_url : String
  pub issuer : String
  pub audience : String

abbrev pub default_jwt_settings : JwtSettings
default_jwt_settings = record {
  jwks_url = "http://gateway:8080/.well-known/jwks.json";
  issuer = "service-gateway";
  audience = "tolo-tenant-management";
}

unfoldable pub jwt_settings : Environment → JwtSettings
jwt_settings env = record {
  jwks_url = getenv env "INTERNAL_JWKS_URL" default_jwt_settings.jwks_url;
  issuer = getenv env "INTERNAL_JWT_ISSUER" default_jwt_settings.issuer;
  audience = getenv env "INTERNAL_JWT_AUDIENCE" default_jwt_settings.audience;
}

unfoldable pub server_addr : Environment → String
server_addr env = getenv env "SERVER_ADDR" ":8080"

unfoldable pub service_name : Environment → String
service_name env =
    if not (is_empty (env "OTEL_SERVICE_NAME"))
    then env "OTEL_SERVICE_NAME"
    else "tolo-tenant-management"

unfoldable pub endpoint_configured : Environment → Bool
endpoint_configured env =
    any (λ key. not (is_empty (env key)))
      ("OTEL_EXPORTER_OTLP_TRACES_ENDPOINT" ∷ "OTEL_EXPORTER_OTLP_ENDPOINT" ∷ [])
