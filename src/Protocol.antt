-- ===== src/Protocol.antt =====
-- crates/pr-protocol: values on the wire, and the decoder.
pub mod Value
pub mod Scalars
pub mod Decoder
pub mod Reassembler
pub mod Streaming
pub mod Streamer
