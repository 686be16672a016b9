-- ===== src/Core.antt =====
-- The shared contracts and the cache of crates/keyring-core.
pub mod Provider
pub mod Cell
