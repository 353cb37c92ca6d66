-- ===== src/Auth.antt =====
-- apps/api/src/auth: sessions on access and refresh tokens.
pub mod Tokens
pub mod Service
pub mod Rotation
pub mod Login
pub mod Tests
