-- ===== src/Auth.antt =====
-- internal/auth
pub mod Encryption
pub mod Tokens
pub mod Passwords
