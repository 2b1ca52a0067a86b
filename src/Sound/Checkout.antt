-- ===== src/Sound/Checkout.antt =====
-- The checkout operations keep the tables sound and every purchase on its way.
use tg_bot.Base.{ℕ, String, Option, none, some, List}
use tg_bot.Domain.{
  Uuid, DateTime, PaymentProvider, stars, crypto, PurchaseStatus, Product, Purchase, PaymentState,
  InvoiceRequest,
}
use tg_bot.World.{Env, Enforces, Result, ok, err}
use tg_bot.Services.CheckoutService.{
  send_invoice, create_invoice, start_stars_checkout, start_crypto_checkout, settle_payment,
  redeliver, settle_and_report, verify_stars, conclude, on_states, verify_crypto, retry_delivery,
  verify_pending, verify_by_status, verify_payment,
}
use tg_bot.Sound.Evolution.{Evolves-refl, Keeps, Keeps-pure, keeps_rules}
use tg_bot.Sound.Services

module _ (env : Env) (pg : Enforces env) where
  send_invoice-Keeps : (r : InvoiceRequest) → Keeps (send_invoice env r)
  unfolding send_invoice
  send_invoice-Keeps r = record { at = λ w. Evolves-refl w.db }

  create_invoice-Keeps : (r : InvoiceRequest) → Keeps (create_invoice env r)
  unfolding create_invoice
  create_invoice-Keeps r = record { at = λ w. Evolves-refl w.db }

  pub start_stars_checkout-Keeps :
      (user : ℕ) (product : Product) → Keeps (start_stars_checkout env user product)
  unfolding start_stars_checkout
  start_stars_checkout-Keeps user product =
      search (keeps_rules, Services.start_purchase-Keeps env pg, send_invoice-Keeps) depth 9

  pub start_crypto_checkout-Keeps :
      (user : ℕ) (product : Product) → Keeps (start_crypto_checkout env user product)
  unfolding start_crypto_checkout
  start_crypto_checkout-Keeps user product =
      search
        (
          keeps_rules,
          Services.find_owned-Keeps,
          Services.start_purchase-Keeps env pg,
          create_invoice-Keeps,
        )
        depth 12

  pub settle_payment-Keeps :
      (provider : PaymentProvider) (ext : String) (charge : Option String) (t : Option DateTime)
      → Keeps (settle_payment env provider ext charge t)
  unfolding settle_payment
  settle_payment-Keeps provider ext charge t =
      search
        (keeps_rules, Services.confirm_payment-Keeps env pg, Services.deliver_purchase-Keeps env pg)

  pub redeliver-Keeps : (id : Uuid) → Keeps (redeliver env id)
  unfolding redeliver
  redeliver-Keeps id = Services.redeliver-Keeps env pg id

  settle_and_report-Keeps :
      (p : Purchase) (before : PurchaseStatus) (state : PaymentState) (charge : Option String)
      → Keeps (settle_and_report env p before state charge)
  unfolding settle_and_report
  settle_and_report-Keeps p before state charge =
      search (keeps_rules, settle_payment-Keeps, Services.get-Keeps) depth 9

  verify_stars-Keeps : (p : Purchase) (before : PurchaseStatus) → Keeps (verify_stars env p before)
  unfolding verify_stars
  verify_stars-Keeps p before = search (keeps_rules, settle_and_report-Keeps)

  conclude-Keeps :
      (p : Purchase) (before : PurchaseStatus) (state : Option PaymentState)
      → Keeps (conclude env p before state)
  unfolding conclude
  conclude-Keeps p before (some PaymentState.paid) = search (keeps_rules, settle_and_report-Keeps)
  conclude-Keeps p before (some PaymentState.pending) = search keeps_rules
  conclude-Keeps p before (some PaymentState.expired) = search keeps_rules
  conclude-Keeps p before none = search keeps_rules

  on_states-Keeps :
      (p : Purchase) (before : PurchaseStatus) (r : Result (List (String × PaymentState)))
      → Keeps (on_states env p before r)
  on_states-Keeps p before (ok states) = conclude-Keeps p before _
  on_states-Keeps p before (err e) = search keeps_rules

  verify_crypto-Keeps :
      (p : Purchase) (before : PurchaseStatus) → Keeps (verify_crypto env p before)
  unfolding verify_crypto
  verify_crypto-Keeps p before = search (keeps_rules, on_states-Keeps)

  retry_delivery-Keeps : (p : Purchase) → Keeps (retry_delivery env p)
  unfolding retry_delivery
  retry_delivery-Keeps p =
      search (keeps_rules, Services.deliver_purchase-Keeps env pg, Services.get-Keeps) depth 9

  verify_pending-Keeps :
      (provider : PaymentProvider) (p : Purchase) → Keeps (verify_pending env provider p)
  unfolding verify_pending
  verify_pending-Keeps stars p = verify_stars-Keeps p _
  verify_pending-Keeps crypto p = verify_crypto-Keeps p _

  verify_by_status-Keeps : (s : PurchaseStatus) (p : Purchase) → Keeps (verify_by_status env s p)
  unfolding verify_by_status
  verify_by_status-Keeps PurchaseStatus.refunded p = Keeps-pure _
  verify_by_status-Keeps PurchaseStatus.delivered p = Keeps-pure _
  verify_by_status-Keeps PurchaseStatus.paid p = retry_delivery-Keeps p
  verify_by_status-Keeps PurchaseStatus.pending p = verify_pending-Keeps _ p
  verify_by_status-Keeps PurchaseStatus.expired p = verify_pending-Keeps _ p

  pub verify_payment-Keeps : (id : Uuid) → Keeps (verify_payment env id)
  unfolding verify_payment
  verify_payment-Keeps id = search (keeps_rules, Services.get-Keeps, verify_by_status-Keeps)
