-- ===== src/Signin.antt =====
-- server/auth.go: signing in with a password, session tokens and their revocation (the cut-offs
-- stand in server/admin.go), and changing one's password.
pub mod Tokens
pub mod Login
pub mod Password
pub mod Revocation
pub mod Admission
