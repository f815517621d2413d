-- ===== src/Agent.antt =====
-- The agent of src/agent.rs: the transfers that it takes part in.
pub mod Types
pub mod Arrivals
pub mod Manifest
pub mod Plans
pub mod Data
pub mod Pull
pub mod Workers
pub mod Push
pub mod Examples
