-- ===== src/Openapi/Registry.antt =====
-- registry.go: the tools made of all configured APIs, and calling one.
pub mod Load
pub mod Tools
pub mod Call
