-- ===== src/Bot/Handlers.antt =====
-- backend/app/bot/handlers/payments.py: the buttons, the pre-checkout query, captured and refunded
-- payments; and the webhook of backend/app/bot/webhooks.py. A handler returns what it answers.
use tg_bot.Base.{ℕ, String, Bool, true, false, Option, none, some, is_some, if◌then◌else◌}
use tg_bot.Errors.{
  Error, product_not_found, product_inactive, lock_busy, duplicate_purchase, provider_not_supported,
  payment_gateway, purchase_not_found,
}
use tg_bot.Domain.{Uuid, PaymentProvider, stars, crypto, Product, Purchase, succeeded, grants}
use tg_bot.World.{Env, Run, ◌>>=◌, ◌>>◌, pure, raise, catching}
use tg_bot.Services.PurchaseService
use tg_bot.Services.CheckoutService
use tg_bot.Services.CheckoutService.{CryptoCheckout}

pub data Reply : Type 0 where
  silence : Reply
  card_unavailable payment_in_progress already_purchased payment_unavailable : Reply
  crypto_invoice : String → Reply
  delivery_failed refund_notice : Reply
  pre_checkout_ok pre_checkout_unknown pre_checkout_already_owned : Reply
  pre_checkout_unavailable : Reply

-- `except (ProductNotFoundError, ProductInactiveError)`
abbrev pub is_unavailable : Error → Bool
is_unavailable product_not_found = true
is_unavailable product_inactive = true
is_unavailable _ = false

abbrev pub is_lock_busy : Error → Bool
is_lock_busy lock_busy = true
is_lock_busy _ = false

abbrev pub is_not_found : Error → Bool
is_not_found purchase_not_found = true
is_not_found _ = false

-- `product_for_checkout`, with `none` where the `except` clause answers
unfoldable pub product_on_sale : Uuid → Run (Option Product)
product_on_sale product_id =
    catching (λ e. if is_unavailable e then pure none else raise e)
      (PurchaseService.product_for_checkout product_id >>= λ product. pure (some product))

-- the last question of the pre-checkout
unfoldable pub ask_owned : Purchase → Option Product → Run Reply
ask_owned purchase none = pure pre_checkout_unavailable
ask_owned purchase (some _) = do
  owned ← PurchaseService.find_owned purchase.user_id purchase.product_id
  pure (if is_some owned then pre_checkout_already_owned else pre_checkout_ok)

unfoldable pub check_purchase : Option Purchase → Run Reply
check_purchase none = pure pre_checkout_unknown
check_purchase (some purchase) =
    if grants purchase
    then pure pre_checkout_already_owned
    else product_on_sale purchase.product_id >>= ask_owned purchase

unfoldable pub handle_pre_checkout : String → Run Reply
handle_pre_checkout payload = PurchaseService.find_by_invoice stars payload >>= check_purchase

abbrev pub payment_failed : Error → Run Reply
payment_failed lock_busy = pure silence
payment_failed purchase_not_found = pure delivery_failed
payment_failed e = raise e

module _ (env : Env) where
  -- the branch that hands the link over again
  unfoldable pub hand_again : Option Purchase → Run Reply
  hand_again none = pure already_purchased
  hand_again (some owned) =
      catching (λ e. if is_lock_busy e then pure already_purchased else raise e)
        (CheckoutService.redeliver env owned.id >> pure already_purchased)

  unfoldable pub pay_stars : ℕ → Product → Run Reply
  pay_stars user product = CheckoutService.start_stars_checkout env user product >> pure silence

  unfoldable pub pay_crypto : ℕ → Product → Run Reply
  pay_crypto user product = do
    checkout ← CheckoutService.start_crypto_checkout env user product
    pure (crypto_invoice checkout.pay_url)

  unfoldable pub pay_by : PaymentProvider → ℕ → Product → Run Reply
  pay_by stars user product = pay_stars user product
  pay_by crypto user product = pay_crypto user product

  -- the `except` clauses of the payment button
  unfoldable pub pay_refused : ℕ → Product → Error → Run Reply
  pay_refused user product lock_busy = pure payment_in_progress
  pay_refused user product duplicate_purchase = do
    owned ← PurchaseService.find_owned user product.id
    hand_again owned
  pay_refused user product provider_not_supported = pure card_unavailable
  pay_refused user product payment_gateway = pure payment_unavailable
  pay_refused user product e = raise e

  abbrev pub pay_for : ℕ → PaymentProvider → Option Product → Run Reply
  pay_for user provider none = pure card_unavailable
  pay_for user provider (some product) =
      catching (pay_refused user product) (pay_by provider user product)

  unfoldable pub handle_pay_pressed : ℕ → Uuid → PaymentProvider → Run Reply
  handle_pay_pressed user product_id provider = product_on_sale product_id >>= pay_for user provider

  unfoldable pub handle_successful_payment : String → String → Run Reply
  handle_successful_payment payload charge = catching payment_failed (
      CheckoutService.settle_payment env stars payload (some charge) none >>= λ result.
      pure (if succeeded result then silence else delivery_failed))

  unfoldable pub handle_refunded_payment : String → Run Reply
  handle_refunded_payment charge =
      catching (λ e. if is_not_found e then pure silence else raise e)
        (PurchaseService.refund_by_charge_id env charge >> pure refund_notice)
