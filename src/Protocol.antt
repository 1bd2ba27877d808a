-- ===== src/Protocol.antt =====
-- src/protocol: the wire formats.
pub mod Limits
pub mod FrameCodec
pub mod PostCodec
pub mod Fragmenter
pub mod DedupeWindow
pub mod Reassembler
pub mod InboundQueue
