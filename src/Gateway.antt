-- ===== src/Gateway.antt =====
-- controller/gateway: the inference entry point. Each child models a file or a part of one.
pub mod Backend
pub mod Affinity
pub mod Target
pub mod Failover
pub mod Superborg
pub mod Tests
