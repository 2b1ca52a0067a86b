-- ===== src/Repository.antt =====
-- backend/app/infrastructure/db/repositories: the queries and the guarded writes of each table.
pub mod PurchaseTable
pub mod CatalogTable
