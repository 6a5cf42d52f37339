-- ===== src/Server.antt =====
-- internal/server/server.go: the readiness of the adapter with its cache, and the exported metrics.
-- The server of net/http and the format of /metrics are left out.
pub mod Health
pub mod Exported
