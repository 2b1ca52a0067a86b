-- ===== src/Admin.antt =====
-- The administrator's tokens: backend/app/services/auth.py.
pub mod Tokens
pub mod Revoking
pub mod Rotation
pub mod Limiter
pub mod Guessing
