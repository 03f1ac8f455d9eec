-- ===== src/Api.antt =====
-- internal/api/server.go and the start in cmd/server/main.go: the handlers of the HTTP API.
pub mod Reload
pub mod Routes
mod Tests
