-- ===== src/Riscv.antt =====
-- The instruction set: common/src/riscv.
pub mod Op
pub mod Field
pub mod Compressed
pub mod Decode
mod Examples
