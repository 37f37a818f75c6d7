-- ===== src/Paging.antt =====
-- The memory that a client keeps for the VM page by page: vm/src/handlers/lib, with vm/src/aes.rs,
-- vm/src/auth.rs, vm/src/io.rs and client-sdk/src/memory.rs.
pub mod Aes
pub mod Session
pub mod Strategy
pub mod Device
pub mod Talk
pub mod Outsourced
mod Examples
pub mod Evict
