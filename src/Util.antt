-- ===== src/Util.antt =====
-- src/util.rs: the helpers that all roles share.
pub mod Text
pub mod Hex
pub mod Base64
pub mod Key
pub mod Json
pub mod Paths
pub mod Examples
