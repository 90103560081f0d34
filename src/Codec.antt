-- ===== src/Codec.antt =====
-- The crate core/raptorq-core: configuration, object metadata, encoder and decoder.
pub mod Raptorq
pub mod Errors
pub mod Config
pub mod Symbol
pub mod Meta
pub mod Decoder
pub mod Encoder
pub mod Tests
