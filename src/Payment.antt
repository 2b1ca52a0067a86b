-- ===== src/Payment.antt =====
-- What confirming, delivering, refunding and expiring a purchase promise.
pub mod Stored
pub mod Accepted
pub mod Paying
pub mod Twice
pub mod HandOver
pub mod Settlement
pub mod Reaching
pub mod Losing
pub mod Repaid
