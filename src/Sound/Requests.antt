-- ===== src/Sound/Requests.antt =====
-- What holds after any sequence of requests.
use tg_bot.Base.{◌≡◌, some, List, [], ◌∷◌, find}
use tg_bot.Domain.{Uuid, Purchase}
use tg_bot.World.{Env, Enforces, World, has_id}
use tg_bot.Requests.{Request, handle, serve}
use tg_bot.Sound.Rows.{IsSound}
use tg_bot.Sound.Evolution.{Later, Evolves, Evolves-refl, Evolves-trans}
use tg_bot.Sound.Services
use tg_bot.Sound.Checkout
use tg_bot.Sound.Bot

module _ (env : Env) (pg : Enforces env) where
  handle-Evolves : (r : Request) (w : World) → Evolves w.db (handle env r w).db
  unfolding handle
  handle-Evolves (Request.open_card profile slug) w =
      (Services.open_card-Keeps env pg profile slug).at w
  handle-Evolves (Request.deep_link telegram profile args) w =
      (Bot.handle_deep_link-Keeps env pg telegram profile args).at w
  handle-Evolves (Request.remember_user profile) w =
      (Services.remember_user-Keeps env pg profile).at w
  handle-Evolves (Request.start_stars user p) w =
      (Checkout.start_stars_checkout-Keeps env pg user p).at w
  handle-Evolves (Request.start_crypto user p) w =
      (Checkout.start_crypto_checkout-Keeps env pg user p).at w
  handle-Evolves (Request.settle provider ext charge t) w =
      (Checkout.settle_payment-Keeps env pg provider ext charge t).at w
  handle-Evolves (Request.redeliver id) w = (Checkout.redeliver-Keeps env pg id).at w
  handle-Evolves (Request.verify id) w = (Checkout.verify_payment-Keeps env pg id).at w
  handle-Evolves (Request.refund id) w = (Services.refund-Keeps env pg id).at w
  handle-Evolves (Request.refund_by_charge_id charge) w =
      (Services.refund_by_charge_id-Keeps env pg charge).at w
  handle-Evolves (Request.expire_stale now) w = (Services.expire_stale-Keeps env pg now).at w
  handle-Evolves (Request.store_product malformed draft) w =
      (Services.create-Keeps env pg malformed draft).at w
  handle-Evolves (Request.change_product malformed id changes) w =
      (Services.update-Keeps env pg malformed id changes).at w
  handle-Evolves (Request.delete_product id) w = (Services.delete-Keeps id).at w
  handle-Evolves (Request.press_pay user id provider) w =
      (Bot.handle_pay_pressed-Keeps env pg user id provider).at w
  handle-Evolves (Request.pre_checkout payload) w = (Bot.handle_pre_checkout-Keeps payload).at w
  handle-Evolves (Request.stars_paid payload charge) w =
      (Bot.handle_successful_payment-Keeps env pg payload charge).at w
  handle-Evolves (Request.stars_refunded charge) w =
      (Bot.handle_refunded_payment-Keeps env pg charge).at w
  handle-Evolves (Request.crypto_webhook hmac parse body signature) w =
      (Bot.handle_cryptobot_webhook-Keeps env pg hmac parse body signature).at w
  handle-Evolves Request.reconcile w = (Bot.run_once-Keeps env pg).at w

  serve-Evolves : (rs : List Request) (w : World) → Evolves w.db (serve env rs w).db
  unfolding serve
  serve-Evolves [] w = Evolves-refl w.db
  serve-Evolves (r ∷ rs) w = Evolves-trans (handle-Evolves r w) (serve-Evolves rs (handle env r w))

  -- Where the database enforces the constraints, any sequence of requests, failing ones included, takes
  -- sound tables to sound tables: every purchase has a positive amount, its dates and its link where
  -- its status asks for them, a known buyer and a known product, no two purchases share an id, an
  -- invoice, a charge or an owned copy, every product is priced and has a well-formed slug, and no
  -- two products share an id or a slug.
  pub serve-IsSound : (rs : List Request) (w : World) → IsSound w.db → IsSound (serve env rs w).db
  serve-IsSound rs w s = (serve-Evolves rs w).sound s

  -- Where the database enforces the constraints:
  -- whatever requests follow, a stored purchase stays stored, keeps its buyer, product, provider,
  -- amount, currency, invoice and date of creation, and its status only moves forward in the order
  -- pending, expired, paid, delivered, refunded.
  pub serve-Later :
      (rs : List Request) (w : World) (id : Uuid) (p : Purchase)
      → find (has_id id) w.db.purchases ≡ some p
      → Later p (find (has_id id) (serve env rs w).db.purchases)
  serve-Later rs w id p e = (serve-Evolves rs w).purchases id p e
