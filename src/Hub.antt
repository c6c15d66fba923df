-- ===== src/Hub.antt =====
-- server/ws.go and server/delivery.go: the live connections, the routing of messages between them,
-- and the batched marks of delivery.
pub mod Marks
pub mod Sockets
pub mod Routing
pub mod Signals
pub mod Session
