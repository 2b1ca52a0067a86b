-- ===== src/Selling.antt =====
-- Showing a card, reserving a purchase, expiring it, and the last check before a charge.
pub mod Precheckout
pub mod Expiring
pub mod Reserving
pub mod Cards
pub mod Opening
