-- ===== src/Api.antt =====
-- The administration API: backend/app/api.
pub mod Schemas
pub mod Bodies
pub mod Endpoints
pub mod Access
pub mod Statuses
