-- ===== src/Connector.antt =====
-- The native connector (crates/connector/src): what an application links to be on the bus.
pub mod Slots
pub mod Session
pub mod Calls
pub mod Reconnect
pub mod Serde
pub mod Pool
pub mod Service
pub mod Channels
pub mod Api
pub mod Tests
