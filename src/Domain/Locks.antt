-- ===== src/Domain/Locks.antt =====
-- backend/app/domain/locks.py, and the key of the anti-flood lock of backend/app/bot/middlewares.py.
-- A key is kept in its parts: the texts that the code prints from them differ where the parts do.
use tg_bot.Base.{ℕ, String}
use tg_bot.Domain.Enums.{PaymentProvider}
use tg_bot.Domain.Entities.{Uuid}

pub data LockKey : Type 0 where
  purchase_lock_key : ℕ → Uuid → LockKey
  delivery_lock_key : Uuid → LockKey
  payment_lock_key : PaymentProvider → String → LockKey
  throttle_key : ℕ → LockKey
