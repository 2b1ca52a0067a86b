-- ===== src/Sound.antt =====
-- The invariant of the tables that the constraints of backend/app/infrastructure/db/models.py keep.
pub mod Rows
pub mod Lookup
pub mod Evolution
pub mod Writes
pub mod Expiry
pub mod Catalog
pub mod Services
pub mod Checkout
pub mod Bot
pub mod Requests
