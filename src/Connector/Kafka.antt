-- ===== src/Connector/Kafka.antt =====
-- internal/connector/kafka, on the admin client of the Kafka library as a parameter.
pub mod Params
pub mod Admin
pub mod Client
pub mod Topics
pub mod Health
pub mod Groups
pub mod Offsets
pub mod Settings
pub mod Execute
mod Tests
