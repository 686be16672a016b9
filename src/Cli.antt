-- ===== src/Cli.antt =====
-- crates/keyring-cli: configuration, the listener, the service loop and its client tasks.
pub mod Serve
pub mod Handle
pub mod Platform
pub mod NamedPipe
pub mod Signal
pub mod Config
