-- ===== src/Proto.antt =====
-- src/proto.rs: the frames of the control plane and the payloads of the data plane.
pub mod Tags
pub mod Types
pub mod Utf8
pub mod Encoder
pub mod Decoder
pub mod Fields
pub mod Frame
pub mod Payload
