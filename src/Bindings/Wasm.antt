-- ===== src/Bindings/Wasm.antt =====
-- The browser's bindings (core/transfer-engine/src/wasm.rs).
pub mod Slices
pub mod Receiver
pub mod Sender
pub mod Layout
