-- ===== src/Wire.antt =====
-- The connections of src/wire.rs: encrypted frames, and the queue of the writer thread.
pub mod Framing
pub mod Queue
pub mod Examples
