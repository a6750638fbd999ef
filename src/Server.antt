-- ===== src/Server.antt =====
-- Configuration and start of the process: cmd/server/main.go, internal/telemetry/telemetry.go,
-- internal/infra/db/open.go and the settings of internal/infra/connect/server.go.
pub mod Config
pub mod Run
