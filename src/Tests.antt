-- ===== src/Tests.antt =====
-- Runs of the development on small inputs: a sample world, and one example for each result.
mod Encoding
mod World
mod Authority
mod CaAdmin
mod Client
mod App
mod Stores
mod Accounts
mod Sessions
mod Certs
mod Documents
mod Limits
