-- ===== src/Examples.antt =====
-- Concrete inputs at which the theorems apply, one module for each part of the server.
pub mod Limits
pub mod Messages
pub mod Files
pub mod Codes
pub mod Accounts
pub mod Chats
pub mod Sessions
pub mod Keys
pub mod Sockets
pub mod History
pub mod Search
pub mod Prefs
pub mod Previews
