-- ===== src/Store.antt =====
-- server/internal/store: the persistence types and the in-memory store.
pub mod Types
pub mod Memory
pub mod Accounts
pub mod Devices
pub mod Certificates
pub mod Signatures
pub mod Ops
pub mod Search
pub mod Latest
pub mod Permanence
pub mod Invariant
