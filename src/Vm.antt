-- ===== src/Vm.antt =====
-- The memory and the CPU of the virtual machine: common/src/vm.rs.
pub mod Error
pub mod Memory
pub mod Segment
pub mod Cpu
pub mod Alu
pub mod Arm
pub mod Execute
