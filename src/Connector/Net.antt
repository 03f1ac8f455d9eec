-- ===== src/Connector/Net.antt =====
-- netutil, tcp and udp of internal/connector: one exchange of bytes with a host and a port.
pub mod Payload
pub mod Exchange
mod Tests
