-- ===== src/Protocol.antt =====
-- The crate core/qr-protocol: frames, session ids and padding.
pub mod Checksum
pub mod Errors
pub mod Frame
pub mod Session
pub mod Tests
pub mod Chunker
pub mod Compress
pub mod Stream
pub mod QrRender
