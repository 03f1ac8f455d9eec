-- ===== src/Connector.antt =====
-- internal/connector: the operations on hosts, brokers and devices, up to the client libraries.
pub mod Tls
pub mod Redis
pub mod Snmp
pub mod Net
pub mod Kafka
pub mod Http
pub mod Sql
pub mod Command
