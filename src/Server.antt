-- ===== src/Server.antt =====
-- src/server.rs: the relay between agents and controllers.
pub mod Messages
pub mod State
pub mod Relay
pub mod Handlers
pub mod Routes
pub mod Examples
