-- ===== src/Catalog.antt =====
-- What the product service of backend/app/services/products.py keeps to.
pub mod Refusals
pub mod Changes
