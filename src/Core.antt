-- ===== src/Core.antt =====
-- core: the packages that the clients and the server share.
pub mod Certutil
pub mod Verification
pub mod Enrollment
pub mod Keys
pub mod Labpki
pub mod Signing
