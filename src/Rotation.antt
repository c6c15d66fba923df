-- ===== src/Rotation.antt =====
-- server/rotatekey.go and server/enckeyguard.go: a change of SERVER_ENC_KEY that keeps the data.
-- `Rows` re-encrypts message bodies and secrets, `Files` the uploads, and `Command` is the run.
pub mod Rows
pub mod Files
pub mod Secrets
pub mod Guard
pub mod Command
