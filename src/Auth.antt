-- ===== src/Auth.antt =====
-- pylar/auth: who may do what.
pub mod Gate
pub mod Signed
pub mod Totp
pub mod Roles
pub mod Tokens
