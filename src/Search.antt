-- ===== src/Search.antt =====
-- The listings of the admin panel: patterns, pages, and the search of purchases and products.
pub mod Like
pub mod Patterns
pub mod Pages
pub mod Purchases
pub mod Rows
pub mod Union
pub mod Products
