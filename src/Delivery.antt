-- ===== src/Delivery.antt =====
-- What backend/app/services/delivery.py promises.
pub mod Retries
pub mod Refusals
pub mod Backoff
