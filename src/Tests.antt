-- ===== src/Tests.antt =====
-- Runs of the models on small inputs, and the theorems at such inputs.
mod Toy
mod Vault
mod Core
mod Providers
mod Service
mod Cli
mod Task
mod Startup
mod Platform
mod Agent
mod Clients
mod Confinement
mod Gate
