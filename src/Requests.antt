-- ===== src/Requests.antt =====
-- Everything that the outside can ask of the services, one request after another: buttons and deep
-- links of the bot, webhooks, the loops of the workers, and the admin panel. A request that raises
-- leaves behind what it committed before.
use tg_bot.Base.{ℕ, String, Bool, Option, List, [], ◌∷◌}
use tg_bot.Domain.{Uuid, DateTime, PaymentProvider, Product, UserDraft, ProductDraft, ProductUpdate}
use tg_bot.World.{Env, World, Result, Run}
use tg_bot.Services.PurchaseService
use tg_bot.Services.CheckoutService
use tg_bot.Services.ProductService
use tg_bot.Bot.Handlers
use tg_bot.Bot.Start
use tg_bot.Bot.Background

pub data Request : Type 0 where
  open_card : UserDraft → String → Request
  deep_link : (ℕ → Start.Answer → Result (Unit {0})) → UserDraft → Option String → Request
  remember_user : UserDraft → Request
  start_stars start_crypto : ℕ → Product → Request
  settle : PaymentProvider → String → Option String → Option DateTime → Request
  redeliver verify refund : Uuid → Request
  refund_by_charge_id : String → Request
  expire_stale : Option DateTime → Request
  store_product : (List ℕ → Bool) → ProductDraft → Request
  change_product : (List ℕ → Bool) → Uuid → ProductUpdate → Request
  delete_product : Uuid → Request
  press_pay : ℕ → Uuid → PaymentProvider → Request
  pre_checkout : String → Request
  stars_paid : String → String → Request
  stars_refunded : String → Request
  crypto_webhook :
      (String → String) → (String → Background.Notice) → String → Option String → Request
  reconcile : Request

module _ (env : Env) where
  abbrev after : {A : Type 0} → Run A → World → World
  after m w = (m w).1

  unfoldable pub handle : Request → World → World
  handle (open_card profile slug) = after (PurchaseService.open_card env profile slug)
  handle (deep_link telegram profile args) =
      after (Start.handle_deep_link env telegram profile args)
  handle (remember_user profile) = after (PurchaseService.remember_user env profile)
  handle (start_stars user product) = after (CheckoutService.start_stars_checkout env user product)
  handle (start_crypto user product) =
      after (CheckoutService.start_crypto_checkout env user product)
  handle (settle provider ext charge t) =
      after (CheckoutService.settle_payment env provider ext charge t)
  handle (redeliver id) = after (CheckoutService.redeliver env id)
  handle (verify id) = after (CheckoutService.verify_payment env id)
  handle (refund id) = after (PurchaseService.refund env id)
  handle (refund_by_charge_id charge) = after (PurchaseService.refund_by_charge_id env charge)
  handle (expire_stale now) = after (PurchaseService.expire_stale env now)
  handle (store_product malformed draft) = after (ProductService.create env malformed draft)
  handle (change_product malformed id changes) =
      after (ProductService.update env malformed id changes)
  handle (delete_product id) = after (ProductService.delete id)
  handle (press_pay user id provider) = after (Handlers.handle_pay_pressed env user id provider)
  handle (pre_checkout payload) = after (Handlers.handle_pre_checkout payload)
  handle (stars_paid payload charge) = after (Handlers.handle_successful_payment env payload charge)
  handle (stars_refunded charge) = after (Handlers.handle_refunded_payment env charge)
  handle (crypto_webhook hmac parse body signature) =
      after (Background.handle_cryptobot_webhook env hmac parse body signature)
  handle reconcile = after (Background.run_once env)

  unfoldable pub serve : List Request → World → World
  serve [] w = w
  serve (r ∷ rs) w = serve rs (handle r w)
