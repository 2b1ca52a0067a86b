-- ===== src/World/Outside.antt =====
-- The outside world, as the code relies on it: PostgreSQL's verdict on a write, the clock, `uuid4`,
-- Redis locks, Crypto Pay and Telegram; and the settings of backend/app/core/config.py.
use tg_bot.Base.{ℕ, ◌+◌, String, ◌≡◌, Bool, true, false, Option, none, some, List, if◌then◌else◌}
use tg_bot.Errors.{Constraint, lock_busy}
use tg_bot.Domain.{
  Uuid, DateTime, LockKey, Purchase, Product, DeliveryMessage, InvoiceRequest, Invoice,
  PaymentState,
}
use tg_bot.World.Actions.{Db, Result, err, Run}
use tg_bot.World.Schema.{purchase_holds, product_holds}

-- `DeliverySettings`, with durations in microseconds and ratios in millionths.
pub record DeliverySettings : Type 0 where
  pub max_attempts : ℕ
  pub initial_backoff : ℕ
  pub max_backoff : ℕ
  pub backoff_multiplier : ℕ
  pub jitter_ratio : ℕ

-- How one call of `DeliveryGateway.send` ends.
pub data Sending : Type 0 where
  accepted : Sending
  transient : String → Option ℕ → Sending
  permanent : String → Sending

pub record Env : Type 0 where
  pub delivery : DeliverySettings
  pub invoice_ttl : ℕ
  pub reconciliation_batch_size : ℕ
  pub clock : ℕ → DateTime
  pub uuid4 : ℕ → Uuid
  pub hex : ℕ → String
  pub jitter : ℕ → ℕ
  pub busy : ℕ → LockKey → Bool
  pub send : ℕ → DeliveryMessage → Sending
  pub send_invoice : ℕ → InvoiceRequest → Result (Unit {0})
  pub create_invoice : ℕ → InvoiceRequest → Result Invoice
  pub fetch_states : ℕ → List String → Result (List (String × PaymentState))
  -- The constraint by which PostgreSQL refuses a row beside the other rows of its table.
  pub purchase_violation : Db → List Purchase → Purchase → Option Constraint
  -- A value that a column cannot hold, or the driver cannot send: a text with a NUL, or one too long.
  pub unstorable : Product → Bool
  pub product_violation : List Product → Product → Option Constraint

-- PostgreSQL accepts a row only if every constraint holds, and blames one that does not. Which one
-- it blames, where several fail, is not documented.
pub record Enforces (env : Env) : Type 0 where
  pub purchase_accepted :
      (db : Db) (others : List Purchase) (p : Purchase) (c : Constraint)
      → env.purchase_violation db others p ≡ none
      → purchase_holds c db others p ≡ true
  pub purchase_blamed :
      (db : Db) (others : List Purchase) (p : Purchase) (c : Constraint)
      → env.purchase_violation db others p ≡ some c
      → purchase_holds c db others p ≡ false
  pub product_accepted :
      (others : List Product) (p : Product) (c : Constraint)
      → env.product_violation others p ≡ none
      → product_holds c others p ≡ true
  pub product_blamed :
      (others : List Product) (p : Product) (c : Constraint)
      → env.product_violation others p ≡ some c
      → product_holds c others p ≡ false

module _ (env : Env) {A : Type 0} where
  -- `async with self.locks.lock(key)`. The lock is released at the end, also by an exception.
  unfoldable pub locked : LockKey → Run A → Run A
  locked key body w =
      let rest = body (record w { tick = w.tick + 1 }) in
      if env.busy w.tick key then (err lock_busy, record w { tick = w.tick + 1 }) else rest
