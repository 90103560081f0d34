-- ===== src/Engine.antt =====
-- The crate core/transfer-engine: descriptors, segments, sender, receiver and assembler.
pub mod Errors
pub mod FileMeta
pub mod Segment
pub mod Equality
pub mod Utf8
pub mod Descriptor
pub mod Assembler
pub mod Sender
pub mod IngestStatus
pub mod Stats
pub mod Progress
pub mod Receiver
pub mod Tests
