-- ===== src/Gateway.antt =====
-- server/gateway: the sessions of the players that are connected.
pub mod Session
pub mod Store
pub mod Failover
pub mod Manager
mod Tests
