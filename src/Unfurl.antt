-- ===== src/Unfurl.antt =====
-- The link previews: the addresses that server/unfurl.go may reach, and the cache of
-- server/unfurlcache.go.
pub mod Address
pub mod Cache
pub mod Ranges
pub mod Bound
pub mod Handler
pub mod Remembered
