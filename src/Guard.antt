-- ===== src/Guard.antt =====
-- The guards in front of the connectors: who may call, which SQL runs, how much is returned.
pub mod Auth
pub mod Sql
pub mod Limits
mod Tests
