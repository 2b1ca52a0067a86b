-- ===== src/Services/DeliveryService.antt =====
-- backend/app/services/delivery.py: the message with the link, its retries, and their pauses.
use Prim.Native.Nat.{min, max}
use tg_bot.Base.{
  ℕ, zero, suc, ◌+◌, ◌-◌, ◌*◌, ◌/◌, ◌^◌, Bool, true, false, not, ◌&&◌, Option, none, some, ◌∷◌,
  if◌then◌else◌,
}
use tg_bot.Errors.{purchase_not_found, product_not_found, user_not_found, conflict}
use tg_bot.Domain.{
  Uuid, is_delivered, Product, User, Purchase, grants, DeliveryMessage, DeliveryResult, sent,
  already_delivered, failed, succeeded, delivery_lock_key,
}
use tg_bot.World.{
  Env, Sending, accepted, transient, permanent, World, ok, Run, ◌>>=◌, ◌>>◌, pure, raise_if,
  or_raise, unit_of_work, ask, locked,
}
use tg_bot.Repository.PurchaseTable
use tg_bot.Repository.CatalogTable
use tg_bot.Services.PurchaseService

pub record Context : Type 0 where
  pub purchase : Purchase
  pub product : Product
  pub user : User

-- `_load_context`
unfoldable pub load_context : Uuid → Run Context
load_context purchase_id = unit_of_work do
  purchase ← or_raise purchase_not_found (← PurchaseTable.get purchase_id)
  product ← or_raise product_not_found (← CatalogTable.get purchase.product_id)
  user ← or_raise user_not_found (← CatalogTable.get_user purchase.user_id)
  pure (record { purchase = purchase; product = product; user = user })

abbrev million : ℕ
million = 1000000

-- `_backoff` of attempt `attempt`, in microseconds. `draw` is the value of `jitter()` in millionths,
-- so `delay + spread * (2 * draw - 1)` is never computed below zero, as the source's `max(0.0, …)`.
unfoldable pub backoff : Env → ℕ → ℕ → Option ℕ → ℕ
backoff env draw attempt retry_after =
    let s = env.delivery in
    let nominal =
      min (s.initial_backoff * s.backoff_multiplier ^ (attempt - 1) / million ^ (attempt - 1))
        s.max_backoff in
    let spread = nominal * s.jitter_ratio / million in
    let jittered = (nominal * million + spread * (draw * 2) - spread * million) / million in
    elim retry_after [ none ↦ jittered | some hint ↦ max jittered hint ]

module _ (env : Env) where
  abbrev pub outcome : DeliveryMessage → Sending → World → World
  outcome m accepted w = record w { tick = w.tick + 1; outbox = m ∷ w.outbox }
  outcome m (transient _ _) w = record w { tick = w.tick + 1 }
  outcome m (permanent _) w = record w { tick = w.tick + 1 }

  -- one call of `gateway.send`
  unfoldable pub send : DeliveryMessage → Run Sending
  send m w = let answer = env.send w.tick m in (ok answer, outcome m answer w)

  unfoldable pub sleep : ℕ → Option ℕ → Run (Unit {0})
  sleep attempt retry_after = do
    draw ← ask env.jitter
    λ w. (ok tt, record w { sleeps = backoff env draw attempt retry_after ∷ w.sleeps })

  abbrev pub ended : DeliveryMessage → ℕ → Sending → DeliveryResult
  ended m attempt accepted = record {
    status = sent;
    purchase_id = m.purchase_id;
    attempts = attempt;
    error = none;
  }
  ended m attempt (transient e _) = record {
    status = failed;
    purchase_id = m.purchase_id;
    attempts = attempt;
    error = some e;
  }
  ended m attempt (permanent e) = record {
    status = failed;
    purchase_id = m.purchase_id;
    attempts = attempt;
    error = some e;
  }

  -- What follows an answer: the end, or a pause and the next attempt.
  abbrev pub follow : DeliveryMessage → ℕ → ℕ → Run DeliveryResult → Sending → Run DeliveryResult
  follow m attempt remaining next accepted = pure (ended m attempt accepted)
  follow m attempt remaining next (permanent e) = pure (ended m attempt (permanent e))
  follow m attempt zero next (transient e hint) = pure (ended m attempt (transient e hint))
  follow m attempt (suc _) next (transient e hint) = sleep attempt hint >> next

  -- The rounds of the loop that are left, with the number of the next attempt.
  unfoldable pub attempts_from : ℕ → ℕ → DeliveryMessage → Run DeliveryResult
  attempts_from zero attempt m = pure (record {
    status = failed;
    purchase_id = m.purchase_id;
    attempts = attempt - 1;
    error = none;
  })
  attempts_from (suc rounds) attempt m =
      send m >>= follow m attempt rounds (attempts_from rounds (attempt + 1) m)

  -- `_send_with_retries`
  unfoldable pub send_with_retries : DeliveryMessage → Run DeliveryResult
  send_with_retries m = attempts_from env.delivery.max_attempts 1 m

  abbrev pub message_of : Context → Uuid → Bool → DeliveryMessage
  message_of c purchase_id is_repeat = record {
    chat_id = c.user.telegram_id;
    purchase_id = purchase_id;
    product_title = c.product.title;
    delivery_url = c.product.delivery_url;
    is_repeat = is_repeat;
  }

  -- the end of `_deliver`, after the attempts
  unfoldable pub record_delivery : Context → Uuid → DeliveryResult → Run DeliveryResult
  record_delivery c purchase_id result =
      if succeeded result && not (is_delivered c.purchase.status)
      then (PurchaseService.mark_delivered env purchase_id c.product.delivery_url >>= λ _.
          pure result)
      else pure result

  -- the body of `_deliver`, inside the lock
  unfoldable pub hand_over : Uuid → Bool → Bool → Run DeliveryResult
  hand_over purchase_id is_repeat resend_if_delivered = do
    c ← load_context purchase_id
    (if is_delivered c.purchase.status && not resend_if_delivered
        then pure (record {
          status = already_delivered;
          purchase_id = purchase_id;
          attempts = 0;
          error = none;
        })
        else do
          raise_if (not (grants c.purchase)) conflict
          result ← send_with_retries (message_of c purchase_id is_repeat)
          record_delivery c purchase_id result)

  -- `_deliver`
  unfoldable pub deliver : Uuid → Bool → Bool → Run DeliveryResult
  deliver purchase_id is_repeat resend_if_delivered =
      locked env (delivery_lock_key purchase_id)
        (hand_over purchase_id is_repeat resend_if_delivered)

  unfoldable pub deliver_purchase : Uuid → Run DeliveryResult
  deliver_purchase purchase_id = deliver purchase_id false false

  unfoldable pub redeliver : Uuid → Run DeliveryResult
  redeliver purchase_id = deliver purchase_id true true
