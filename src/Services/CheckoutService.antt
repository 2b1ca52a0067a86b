-- ===== src/Services/CheckoutService.antt =====
-- backend/app/services/checkout.py: invoices, settlement, and the manual check of a payment.
use tg_bot.Base.{
  ℕ, ◌+◌, String, Option, none, some, List, [], ◌∷◌, is_some, or_else, str_eq, if◌then◌else◌,
}
use tg_bot.Errors.{is_app_error, duplicate_purchase}
use tg_bot.Domain.{
  Uuid, DateTime, PaymentProvider, stars, crypto, Currency, currency_of, PurchaseStatus, Product,
  price_for, Purchase, DeliveryResult, succeeded, InvoiceRequest, Invoice, PaymentState,
  VerificationOutcome, VerificationReport,
}
use tg_bot.World.{Env, Result, ok, err, Run, ◌>>=◌, ◌>>◌, pure, raise, raise_if, ask}
use tg_bot.Repository.PurchaseTable.{truthy}
use tg_bot.Services.PurchaseService
use tg_bot.Services.DeliveryService

pub record CryptoCheckout : Type 0 where
  pub purchase : Purchase
  pub pay_url : String

-- a Python dict built from pairs: the last pair of a key counts
unfoldable pub state_of : String → List (String × PaymentState) → Option PaymentState
state_of key [] = none
state_of key ((k, s) ∷ rest) = elim (state_of key rest) [
  | some later ↦ some later
  | none ↦ if str_eq k key then some s else none
]

-- `_report`
abbrev pub report :
    Purchase
    → VerificationOutcome
    → PurchaseStatus
    → Option PaymentState
    → Option DeliveryResult
    → VerificationReport
report purchase outcome status_before provider_state delivery = record {
  purchase_id = purchase.id;
  provider = purchase.provider;
  outcome = outcome;
  status_before = status_before;
  status_after = purchase.status;
  provider_state = provider_state;
  delivery = delivery;
}

abbrev pub request : ℕ → Product → ℕ → Currency → String → InvoiceRequest
request user_id product amount currency payload = record {
  user_id = user_id;
  product_id = product.id;
  title = product.title;
  description = product.description;
  amount = amount;
  currency = currency;
  payload = payload;
}

module _ (env : Env) where
  -- `stars.send_invoice`, `crypto.create_invoice`
  unfoldable pub send_invoice : InvoiceRequest → Run (Unit {0})
  send_invoice r w =
      (env.send_invoice w.tick r, record w { tick = w.tick + 1; invoices = r ∷ w.invoices })

  unfoldable pub create_invoice : InvoiceRequest → Run Invoice
  create_invoice r w =
      (env.create_invoice w.tick r, record w { tick = w.tick + 1; invoices = r ∷ w.invoices })

  unfoldable pub start_stars_checkout : ℕ → Product → Run Purchase
  start_stars_checkout user_id product = do
    payload ← ask env.hex
    purchase ← PurchaseService.start_purchase env user_id product.id stars payload
    send_invoice (request user_id product purchase.amount purchase.currency payload)
    pure purchase

  unfoldable pub start_crypto_checkout : ℕ → Product → Run CryptoCheckout
  start_crypto_checkout user_id product = do
    owned ← PurchaseService.find_owned user_id product.id
    raise_if (is_some owned) duplicate_purchase
    payload ← ask env.hex
    invoice ← create_invoice (
        request user_id product (or_else (price_for product crypto) 0) (currency_of crypto) payload)
    purchase ← PurchaseService.start_purchase env user_id product.id crypto invoice.external_id
    pure (record { purchase = purchase; pay_url = or_else invoice.pay_url "" })

  unfoldable pub settle_payment :
      PaymentProvider → String → Option String → Option DateTime → Run DeliveryResult
  settle_payment provider external_id charge paid_at = do
    purchase ← PurchaseService.confirm_payment env provider external_id charge paid_at
    DeliveryService.deliver_purchase env purchase.id

  unfoldable pub redeliver : Uuid → Run DeliveryResult
  redeliver = DeliveryService.redeliver env

  abbrev pub settled : DeliveryResult → VerificationOutcome → VerificationOutcome
  settled result good = if succeeded result then good else VerificationOutcome.delivery_failed

  -- `_settle_and_report`
  unfoldable pub settle_and_report :
      Purchase → PurchaseStatus → PaymentState → Option String → Run VerificationReport
  settle_and_report purchase status_before provider_state charge = do
    result ← settle_payment purchase.provider purchase.external_id charge none
    refreshed ← PurchaseService.get purchase.id
    pure (
        report refreshed (settled result VerificationOutcome.settled_and_delivered) status_before
          (some provider_state) (some result))

  -- `_verify_stars`
  unfoldable pub verify_stars : Purchase → PurchaseStatus → Run VerificationReport
  verify_stars purchase status_before =
      if truthy purchase.telegram_charge_id
      then settle_and_report purchase status_before PaymentState.paid purchase.telegram_charge_id
      else pure (report purchase VerificationOutcome.no_provider_evidence status_before none none)

  -- what `_verify_crypto` does with the provider's state of the invoice
  unfoldable pub conclude : Purchase → PurchaseStatus → Option PaymentState → Run VerificationReport
  conclude purchase before (some PaymentState.paid) =
      settle_and_report purchase before PaymentState.paid none
  conclude purchase before (some PaymentState.expired) =
      pure
        (report purchase VerificationOutcome.expired_unpaid before (some PaymentState.expired) none)
  conclude purchase before (some PaymentState.pending) =
      pure
        (report purchase VerificationOutcome.still_unpaid before (some PaymentState.pending) none)
  conclude purchase before none =
      pure (report purchase VerificationOutcome.still_unpaid before none none)

  -- the `try` around `fetch_states`
  abbrev pub on_states :
      Purchase → PurchaseStatus → Result (List (String × PaymentState)) → Run VerificationReport
  on_states purchase before (ok states) =
      conclude purchase before (state_of purchase.external_id states)
  on_states purchase before (err e) =
      if is_app_error e
      then pure (report purchase VerificationOutcome.provider_unavailable before none none)
      else raise e

  -- `_verify_crypto`
  unfoldable pub verify_crypto : Purchase → PurchaseStatus → Run VerificationReport
  verify_crypto purchase status_before = do
    states ← ask (λ n. env.fetch_states n (purchase.external_id ∷ []))
    on_states purchase status_before states

  -- the branch of `verify_payment` for a paid purchase
  unfoldable pub retry_delivery : Purchase → Run VerificationReport
  retry_delivery purchase = do
    result ← DeliveryService.deliver_purchase env purchase.id
    refreshed ← PurchaseService.get purchase.id
    pure (
        report refreshed (settled result VerificationOutcome.delivered_now) PurchaseStatus.paid none
          (some result))

  unfoldable pub verify_pending : PaymentProvider → Purchase → Run VerificationReport
  verify_pending stars purchase = verify_stars purchase purchase.status
  verify_pending crypto purchase = verify_crypto purchase purchase.status

  unfoldable pub verify_by_status : PurchaseStatus → Purchase → Run VerificationReport
  verify_by_status PurchaseStatus.refunded p =
      pure (report p VerificationOutcome.refunded p.status none none)
  verify_by_status PurchaseStatus.delivered p =
      pure (report p VerificationOutcome.already_delivered p.status none none)
  verify_by_status PurchaseStatus.paid p = retry_delivery p
  verify_by_status PurchaseStatus.pending p = verify_pending p.provider p
  verify_by_status PurchaseStatus.expired p = verify_pending p.provider p

  unfoldable pub verify_payment : Uuid → Run VerificationReport
  verify_payment purchase_id = do
    purchase ← PurchaseService.get purchase_id
    verify_by_status purchase.status purchase
