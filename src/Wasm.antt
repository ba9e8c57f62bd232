-- ===== src/Wasm.antt =====
-- src/wasm: what a subsystem runs in a phase, and the chains of buffers.
pub mod Ops
pub mod Buffers
