-- ===== src/Sound/Bot.antt =====
-- How the handlers and workers of backend/app/bot change the tables.
use tg_bot.Base.{ℕ, String, Bool, true, false, Option, none, some, List, [], ◌∷◌}
use tg_bot.Errors.{
  Error, duplicate_purchase, lock_busy, purchase_not_found, product_not_found, product_inactive,
}
use tg_bot.Domain.{
  Uuid, PaymentProvider, stars, crypto, Product, Purchase, PaymentState, ProductCard, UserDraft,
}
use tg_bot.World.{Env, Enforces, Result, ok, err}
use tg_bot.Bot.Handlers.{
  hand_again, pay_stars, pay_crypto, pay_by, pay_refused, product_on_sale, pay_for,
  handle_pay_pressed, ask_owned, check_purchase, handle_pre_checkout, payment_failed,
  handle_successful_payment, handle_refunded_payment,
}
use tg_bot.Bot.Start.{
  Answer, already_purchased, delivery_failed, Opened, refused, opened, not_opened, send_answer, say,
  after_delivery, repeat_delivery, show_card, answer, try_card, handle_deep_link,
}
use tg_bot.Bot.Background.{
  Notice, invoice_paid, settle_notice, handle_notice, handle_cryptobot_webhook, settle_one,
  settle_all, on_provider, reconcile, run_once,
}
use tg_bot.Sound.Evolution.{
  Evolves-refl, Keeps, Keeps-pure, Keeps-bind, Keeps-raise, Keeps-if, keeps_rules,
}
use tg_bot.Sound.Services
use tg_bot.Sound.Checkout

product_on_sale-Keeps : (id : Uuid) → Keeps (product_on_sale id)
unfolding product_on_sale
product_on_sale-Keeps id = search (keeps_rules, Services.product_for_checkout-Keeps) depth 9

ask_owned-Keeps : (p : Purchase) (o : Option Product) → Keeps (ask_owned p o)
unfolding ask_owned
ask_owned-Keeps p none = search keeps_rules
ask_owned-Keeps p (some _) = search (keeps_rules, Services.find_owned-Keeps)

check_purchase-Keeps : (o : Option Purchase) → Keeps (check_purchase o)
unfolding check_purchase
check_purchase-Keeps none = search keeps_rules
check_purchase-Keeps (some p) = search (keeps_rules, product_on_sale-Keeps, ask_owned-Keeps)

pub handle_pre_checkout-Keeps : (payload : String) → Keeps (handle_pre_checkout payload)
unfolding handle_pre_checkout
handle_pre_checkout-Keeps payload =
    search (keeps_rules, Services.find_by_invoice-Keeps, check_purchase-Keeps)

module _ (env : Env) (pg : Enforces env) where
  hand_again-Keeps : (o : Option Purchase) → Keeps (hand_again env o)
  unfolding hand_again
  hand_again-Keeps none = search keeps_rules
  hand_again-Keeps (some p) = search (keeps_rules, Checkout.redeliver-Keeps env pg) depth 9

  pay_by-Keeps :
      (provider : PaymentProvider) (user : ℕ) (p : Product) → Keeps (pay_by env provider user p)
  unfolding pay_by pay_stars pay_crypto
  pay_by-Keeps stars user p = search (keeps_rules, Checkout.start_stars_checkout-Keeps env pg)
  pay_by-Keeps crypto user p = search (keeps_rules, Checkout.start_crypto_checkout-Keeps env pg)

  pay_refused-Keeps : (user : ℕ) (p : Product) (e : Error) → Keeps (pay_refused env user p e)
  unfolding pay_refused
  pay_refused-Keeps user p duplicate_purchase =
      search (keeps_rules, Services.find_owned-Keeps, hand_again-Keeps)
  pay_refused-Keeps user p _ = search keeps_rules

  pay_for-Keeps :
      (user : ℕ) (provider : PaymentProvider) (o : Option Product)
      → Keeps (pay_for env user provider o)
  pay_for-Keeps user provider none = search keeps_rules
  pay_for-Keeps user provider (some p) = search (keeps_rules, pay_by-Keeps, pay_refused-Keeps)

  pub handle_pay_pressed-Keeps :
      (user : ℕ) (id : Uuid) (provider : PaymentProvider)
      → Keeps (handle_pay_pressed env user id provider)
  unfolding handle_pay_pressed
  handle_pay_pressed-Keeps user id provider =
      search (keeps_rules, product_on_sale-Keeps, pay_for-Keeps)

  payment_failed-Keeps : (e : Error) → Keeps (payment_failed e)
  payment_failed-Keeps lock_busy = search keeps_rules
  payment_failed-Keeps purchase_not_found = search keeps_rules
  payment_failed-Keeps _ = search keeps_rules

  pub handle_successful_payment-Keeps :
      (payload charge : String) → Keeps (handle_successful_payment env payload charge)
  unfolding handle_successful_payment
  handle_successful_payment-Keeps payload charge =
      search (keeps_rules, Checkout.settle_payment-Keeps env pg, payment_failed-Keeps) depth 9

  pub handle_refunded_payment-Keeps : (charge : String) → Keeps (handle_refunded_payment env charge)
  unfolding handle_refunded_payment
  handle_refunded_payment-Keeps charge =
      search (keeps_rules, Services.refund_by_charge_id-Keeps env pg) depth 9

  settle_notice-Keeps : (id : String) → Keeps (settle_notice env id)
  unfolding settle_notice
  settle_notice-Keeps id = search (keeps_rules, Checkout.settle_payment-Keeps env pg) depth 9

  handle_notice-Keeps : (n : Notice) → Keeps (handle_notice env n)
  unfolding handle_notice
  handle_notice-Keeps (invoice_paid id) = settle_notice-Keeps id
  handle_notice-Keeps _ = search keeps_rules

  pub handle_cryptobot_webhook-Keeps :
      (hmac : String → String) (parse : String → Notice) (body : String) (signature : Option String)
      → Keeps (handle_cryptobot_webhook env hmac parse body signature)
  unfolding handle_cryptobot_webhook
  handle_cryptobot_webhook-Keeps hmac parse body signature =
      Keeps-if _ _ _ (handle_notice-Keeps (parse body)) (Keeps-pure _)

  settle_one-Keeps : (id : String) → Keeps (settle_one env id)
  unfolding settle_one
  settle_one-Keeps id = search (keeps_rules, Checkout.settle_payment-Keeps env pg) depth 9

  settle_all-Keeps : (ids : List String) → Keeps (settle_all env ids)
  unfolding settle_all
  settle_all-Keeps [] = search keeps_rules
  settle_all-Keeps (id ∷ ids) =
      Keeps-bind _ _ (settle_one-Keeps id)
        (λ one. Keeps-bind _ _ (settle_all-Keeps ids) (λ others. Keeps-pure _))

  on_provider-Keeps : (r : Result (List (String × PaymentState))) → Keeps (on_provider env r)
  on_provider-Keeps (ok states) = settle_all-Keeps _
  on_provider-Keeps (err e) = Keeps-if _ _ _ (Keeps-pure _) (Keeps-raise _)

  reconcile-Keeps : (ps : List Purchase) → Keeps (reconcile env ps)
  reconcile-Keeps [] = search keeps_rules
  reconcile-Keeps (p ∷ ps) = search (keeps_rules, on_provider-Keeps)

  pub run_once-Keeps : Keeps (run_once env)
  unfolding run_once
  run_once-Keeps = search (keeps_rules, Services.list_pending-Keeps, reconcile-Keeps)

  not_opened-Keeps : (e : Error) → Keeps (not_opened e)
  not_opened-Keeps product_not_found = search keeps_rules
  not_opened-Keeps product_inactive = search keeps_rules
  not_opened-Keeps _ = search keeps_rules

  module _ (telegram : ℕ → Answer → Result (Unit {0})) where
    send_answer-Keeps : (a : Answer) → Keeps (send_answer env telegram a)
    unfolding send_answer
    send_answer-Keeps a = record { at = λ w. Evolves-refl w.db }

    say-Keeps : (a : Answer) → Keeps (say env telegram a)
    say-Keeps a = Keeps-bind _ _ (send_answer-Keeps a) (λ _. Keeps-pure _)

    after_delivery-Keeps : (o : Option Bool) → Keeps (after_delivery env telegram o)
    after_delivery-Keeps none = Keeps-pure _
    after_delivery-Keeps (some true) = Keeps-pure _
    after_delivery-Keeps (some false) =
        Keeps-bind _ _ (send_answer-Keeps delivery_failed) (λ _. Keeps-pure _)

    repeat_delivery-Keeps : (id : Uuid) → Keeps (repeat_delivery env telegram id)
    repeat_delivery-Keeps id = search (keeps_rules, Checkout.redeliver-Keeps env pg) depth 9

    show_card-Keeps :
        (card : ProductCard) (o : Option Purchase) → Keeps (show_card env telegram card o)
    show_card-Keeps card none = say-Keeps _
    show_card-Keeps card (some p) =
        Keeps-bind _ _ (send_answer-Keeps already_purchased)
          (λ _. Keeps-bind _ _ (repeat_delivery-Keeps p.id) after_delivery-Keeps)

    answer-Keeps : (o : Opened) → Keeps (answer env telegram o)
    unfolding answer
    answer-Keeps (refused a) = say-Keeps a
    answer-Keeps (opened card) = show_card-Keeps card card.owned_purchase

    try_card-Keeps :
        (profile : UserDraft) (slug : String) → Keeps (try_card env telegram profile slug)
    unfolding try_card
    try_card-Keeps profile slug =
        search (keeps_rules, Services.open_card-Keeps env pg, not_opened-Keeps) depth 9

    pub handle_deep_link-Keeps :
        (profile : UserDraft) (args : Option String)
        → Keeps (handle_deep_link env telegram profile args)
    unfolding handle_deep_link
    handle_deep_link-Keeps profile args =
        Keeps-if _ _ _ (Keeps-bind _ _ (try_card-Keeps profile _) answer-Keeps) (say-Keeps _)
