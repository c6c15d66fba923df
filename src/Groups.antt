-- ===== src/Groups.antt =====
-- server/groups.go: group chats. `Store` has the tables and the membership cache, `Handlers` and
-- `Updates` the endpoints, `Requests` sequences of them, and the others are proofs.
pub mod Store
pub mod Handlers
pub mod Updates
pub mod Cache
pub mod Coherence
pub mod Requests
pub mod Served
pub mod Answers
