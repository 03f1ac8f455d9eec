-- ===== src/Model.antt =====
-- internal/model: the types that the parts of the program share.
pub mod Errors
pub mod Api
pub mod Config
pub mod Host
pub mod Database
pub mod Redis
pub mod Kafka
pub mod Snmp
pub mod Command
pub mod Plugin
