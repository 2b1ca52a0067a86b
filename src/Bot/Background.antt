-- ===== src/Bot/Background.antt =====
-- backend/app/bot/webhooks.py and backend/app/bot/workers.py: notifications of Crypto Pay, the loop
-- that asks for the notifications that never came, and the one that expires unpaid invoices.
use tg_bot.Base.{
  ℕ, ◌+◌, String, Bool, true, false, not, ◌&&◌, Option, none, some, List, [], ◌∷◌, map, select,
  str_eq, if◌then◌else◌,
}
use tg_bot.Errors.{is_app_error}
use tg_bot.Domain.{crypto, PaymentState, Purchase}
use tg_bot.World.{Env, Result, ok, err, Run, ◌>>=◌, ◌>>◌, pure, raise, ask, catching}
use tg_bot.Repository.PurchaseTable.{truthy}
use tg_bot.Services.PurchaseService
use tg_bot.Services.CheckoutService
use tg_bot.Services.CheckoutService.{state_of}

-- What `json.loads` and the tests on its result make of a body: no JSON object, an update of another
-- type, a paid invoice without an id, or one with it.
pub data Notice : Type 0 where
  malformed other_update without_invoice : Notice
  invoice_paid : String → Notice

-- `verify_signature`, where `hmac` is the hexadecimal HMAC-SHA256 under the shop's token
unfoldable pub verify_signature : (String → String) → String → Option String → Bool
verify_signature hmac body none = false
verify_signature hmac body (some signature) =
    truthy (some signature) && str_eq (hmac body) signature

-- the keys of a dict, in the order of their first insertion
unfoldable pub distinct : List String → List String
distinct [] = []
distinct (k ∷ ks) = k ∷ select (λ j. not (str_eq j k)) (distinct ks)

abbrev pub is_paid_state : Option PaymentState → Bool
is_paid_state (some PaymentState.paid) = true
is_paid_state _ = false

module _ (env : Env) where
  -- the end of `handle_cryptobot_webhook`: every error of the application is acknowledged
  unfoldable pub settle_notice : String → Run ℕ
  settle_notice invoice_id =
      catching (λ e. if is_app_error e then pure 200 else raise e)
        (CheckoutService.settle_payment env crypto invoice_id none none >> pure 200)

  unfoldable pub handle_notice : Notice → Run ℕ
  handle_notice malformed = pure 400
  handle_notice other_update = pure 200
  handle_notice without_invoice = pure 400
  handle_notice (invoice_paid invoice_id) = settle_notice invoice_id

  -- `handle_cryptobot_webhook`: the status of the answer
  unfoldable pub handle_cryptobot_webhook :
      (String → String) → (String → Notice) → String → Option String → Run ℕ
  handle_cryptobot_webhook hmac parse body signature =
      if verify_signature hmac body signature then handle_notice (parse body) else pure 401

  -- one turn of the loop of `run_once`: 1 if the payment was settled, 0 after an error
  unfoldable pub settle_one : String → Run ℕ
  settle_one external_id =
      catching (λ e. if is_app_error e then pure 0 else raise e)
        (CheckoutService.settle_payment env crypto external_id none none >> pure 1)

  unfoldable pub settle_all : List String → Run ℕ
  settle_all [] = pure 0
  settle_all (external_id ∷ rest) = do
    one ← settle_one external_id
    others ← settle_all rest
    pure (one + others)

  abbrev pub paid_ids : List (String × PaymentState) → List String
  paid_ids states =
      select (λ k. is_paid_state (state_of k states)) (distinct (map (λ pair. pair.0) states))

  abbrev pub on_provider : Result (List (String × PaymentState)) → Run ℕ
  on_provider (ok states) = settle_all (paid_ids states)
  on_provider (err e) = if is_app_error e then pure 0 else raise e

  abbrev pub reconcile : List Purchase → Run ℕ
  reconcile [] = pure 0
  reconcile (p ∷ ps) = do
    let ids = distinct (map (λ q. q.external_id) (p ∷ ps))
    states ← ask (λ n. env.fetch_states n ids)
    on_provider states

  -- `ReconciliationWorker.run_once`
  unfoldable pub run_once : Run ℕ
  run_once = PurchaseService.list_pending crypto env.reconciliation_batch_size >>= reconcile
