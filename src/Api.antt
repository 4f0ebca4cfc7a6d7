-- ===== src/Api.antt =====
-- server/internal/api: the HTTP handlers of the receiver server.
pub mod Types
pub mod Names
pub mod Limits
pub mod Accounts
pub mod Public
pub mod Enrollment
pub mod Session
pub mod Admins
pub mod Access
pub mod Uploads
pub mod Server
pub mod Verify
pub mod Submit
