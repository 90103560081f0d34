-- ===== src/Bindings.antt =====
-- The bindings: what a host in C, Java, JavaScript or Python calls.
pub mod Memory
pub mod Agreement
pub mod Tests
pub mod Capi
pub mod Jni
pub mod Wasm
pub mod Python
