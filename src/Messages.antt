-- ===== src/Messages.antt =====
-- The table of messages and what reads and changes it: server/history.go, server/search.go,
-- server/attachments.go and server/messages.go.
pub mod Table
pub mod History
pub mod Changes
pub mod Pending
pub mod Search
pub mod Attachments
