-- ===== src/Dashboard.antt =====
-- The dashboard's numbers: backend/app/domain/stats.py, services/stats.py and
-- infrastructure/db/repositories/stats.py.
pub mod Periods
pub mod Sums
pub mod Windows
pub mod Groups
