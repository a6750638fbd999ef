-- ===== src/Logging.antt =====
-- The log handler: internal/logging/handler.go.
pub mod Level
pub mod Attr
pub mod Reserved
pub mod Json
pub mod Handler
