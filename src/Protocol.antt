-- ===== src/Protocol.antt =====
-- protocol/: the wire format. The shared types of its encoders and decoders.
pub mod Binary
pub mod Outcome
pub mod Encoder
pub mod Decoder
pub mod Codec
pub mod Fields
pub mod Message
