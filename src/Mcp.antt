-- ===== src/Mcp.antt =====
-- internal/mcp: JSON-RPC requests on the tools of the plugins and of the OpenAPI registry.
pub mod Protocol
pub mod Server
mod Tests
