-- ===== src/Protocol.antt =====
-- src/protocol.rs, part by part.
pub mod Event
pub mod Message
pub mod Frame
pub mod Roundtrip
