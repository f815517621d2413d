-- ===== src/Delta.antt =====
-- src/delta.rs: block signatures, the rolling checksum, the delta of a file and its application.
pub mod Blocks
pub mod Rolling
pub mod Reader
pub mod Sink
pub mod Signatures
pub mod Produce
pub mod Writer
pub mod Sync
pub mod Transfer
