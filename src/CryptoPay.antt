-- ===== src/CryptoPay.antt =====
-- The client of the Crypto Pay API: backend/app/infrastructure/payments/cryptobot.py.
pub mod Client
pub mod Batches
