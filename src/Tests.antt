-- ===== src/Tests.antt =====
-- Worked examples: a small shop, and each theorem at a concrete input.
pub mod Model
mod Soundness
mod Settling
mod Locking
mod Buying
mod Products
mod Opening
mod Reading
mod Refusals
mod Tokens
mod Repaid
mod Reserving
mod Api
mod Guessing
mod Searching
mod Losing
mod Fetching
mod Dashboard
