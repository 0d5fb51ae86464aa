-- ===== src/Protocol.antt =====
-- src/protocol.rs: the wire codec.
pub mod Utf8
pub mod Types
pub mod Encode
pub mod Decode
pub mod Valid
pub mod RoundTrip
pub mod Accepted
pub mod Frames
pub mod Limits
mod Tests
