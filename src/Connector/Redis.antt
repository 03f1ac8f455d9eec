-- ===== src/Connector/Redis.antt =====
-- connector/redis: read-only operations on the instances of redis.yaml.
pub mod Types
pub mod Tests
pub mod Client
pub mod Keys
pub mod Ranges
pub mod Hashes
pub mod Scan
