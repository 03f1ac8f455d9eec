-- ===== src/Connector/Snmp.antt =====
-- connector/snmp/snmp.go: read-only operations on the devices of snmp.yaml.
pub mod Types
pub mod Usm
pub mod Session
pub mod Walk
pub mod Tests
