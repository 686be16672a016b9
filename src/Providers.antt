-- ===== src/Providers.antt =====
-- The key providers of crates/keyring-providers.
pub mod Dummy
pub mod Bitwarden
