-- ===== src/Service.antt =====
-- crates/keyring-service/src/runtime.rs: the agent and its sessions.
pub mod Index
pub mod Sig
pub mod Session
pub mod KeyMap
pub mod Debug
