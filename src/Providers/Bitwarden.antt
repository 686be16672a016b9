-- ===== src/Providers/Bitwarden.antt =====
-- The Bitwarden provider: configuration, payloads, authentication, keys, session and loading.
pub mod Config
pub mod Debug
pub mod Models
pub mod Auth
pub mod KeyStore
pub mod Crypto
pub mod Net
pub mod Session
pub mod Provider
