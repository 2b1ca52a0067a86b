-- ===== src/Services.antt =====
-- backend/app/services: the use cases, each in one or more transactions.
pub mod PurchaseService
pub mod DeliveryService
pub mod CheckoutService
pub mod ProductService
