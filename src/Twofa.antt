-- ===== src/Twofa.antt =====
-- server/twofa.go: the second factor of a password sign-in. The tickets are in `Tickets`, what the
-- database holds and does in `Store`, the endpoints in `Handlers`.
pub mod Tickets
pub mod Store
pub mod Handlers
