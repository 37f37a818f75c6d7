-- ===== src/Client.antt =====
-- The client on the host, which keeps the memory of a V-App and serves its pages: client-sdk/src.
pub mod Memory
pub mod Engine
pub mod Serve
pub mod Conversation
mod Examples
