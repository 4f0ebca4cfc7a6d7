-- ===== src/CaAdmin.antt =====
-- tools/ca-admin
pub mod Serials
pub mod Files
pub mod Keyfile
pub mod Castore
pub mod Audit
pub mod Commands
pub mod Batch
pub mod Status
pub mod History
