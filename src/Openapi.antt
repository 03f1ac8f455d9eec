-- ===== src/Openapi.antt =====
-- internal/openapi: which operations of an API document become tools, and calling them.
pub mod Operation
pub mod PathMatch
pub mod Matcher
pub mod Schema
pub mod Parse
pub mod Registry
mod Tests
