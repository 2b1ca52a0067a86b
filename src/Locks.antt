-- ===== src/Locks.antt =====
-- The Redis locks of backend/app/infrastructure/cache/locks.py.
pub mod Redis
pub mod Manager
pub mod Exclusion
pub mod Waiting
