-- ===== src/Client.antt =====
-- apps/windows/internal: the desktop client.
pub mod Api
pub mod Upload
pub mod Keystore
pub mod App
