-- ===== src/Config.antt =====
-- internal/config: the resource files, and the manager that serves them.
pub mod Errors
pub mod Load
pub mod Snmp
pub mod Commands
pub mod Manager
pub mod Samples
pub mod Lookup
pub mod Named
pub mod Loaded
mod Tests
