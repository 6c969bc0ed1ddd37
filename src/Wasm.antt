-- ===== src/Wasm.antt =====
-- pkg/wasm and internal/wasm: error codes, the memory of a module, and what crosses to it.
pub mod Errors
pub mod Memory
pub mod Border
