-- ===== src/Payment/Losing.antt =====
-- What the throttle before the message handlers does to a notification of a payment in Stars.
use tg_bot.Base.{ℕ, ◌+◌, ◌≡◌, refl, String, true, false, none, some, find, find-test, ◌==◌, arith}
use tg_bot.Domain.{
  PaymentProvider, stars, pending, Purchase, throttle_key, same_provider, PurchaseStatus,
}
use tg_bot.Domain.Payments.{VerificationOutcome}
use tg_bot.World.{Env, World, ok, ◌>>=◌, locked, catching}
use tg_bot.Repository.PurchaseTable
use tg_bot.Repository.PurchaseTable.{matches_invoice, truthy}
use tg_bot.Services.PurchaseService
use tg_bot.Services.CheckoutService.{
  report, verify_payment, verify_by_status, verify_pending, verify_stars,
}
use tg_bot.Bot.Handlers.{handle_successful_payment}
use tg_bot.Bot.Throttle.{throttled}
use tg_bot.Sound.Rows.{IsSound}
use tg_bot.Sound.Lookup.{row_of_find}

-- one question more, and nothing else
abbrev pub asked : World → World
asked w = record w { tick = w.tick + 1 }

invoice-stars :
    (provider : PaymentProvider) → same_provider provider stars ≡ true → provider ≡ stars
invoice-stars stars h = refl
invoice-stars PaymentProvider.crypto h = cc

module _ (env : Env) where
  no_evidence :
      (p : Purchase) (provider : PaymentProvider) (w : World)
      → provider ≡ stars
      → p.telegram_charge_id ≡ none
      → verify_pending env provider p w
        ≡ (ok (report p VerificationOutcome.no_provider_evidence p.status none none), w)
  unfolding verify_pending verify_stars ◌>>=◌
  no_evidence p provider w same uncharged =
      rw same (let e : truthy p.telegram_charge_id ≡ false = rw uncharged in rw e)

  -- On sound tables, where another update of the buyer is under way and the window is not zero: the
  -- message that a pending purchase without a noted charge was paid in Stars is dropped without an
  -- error; nothing changes but the count of questions, and when an administrator checks the payment
  -- afterwards, the report says that there is no evidence of it, and nothing changes either.
  pub throttled-lost :
      (window user : ℕ) (payload charge : String) (w : World) (p : Purchase)
      → IsSound w.db
      → (window == 0) ≡ false
      → env.busy w.tick (throttle_key user) ≡ true
      → find (matches_invoice stars payload) w.db.purchases ≡ some p
      → p.status ≡ pending
      → p.telegram_charge_id ≡ none
      → (throttled env window (some user) (handle_successful_payment env payload charge) w
          ≡ (ok none, asked w))
        × (verify_payment env p.id (asked w)
            ≡ (ok (report p VerificationOutcome.no_provider_evidence p.status none none), asked w))
  unfolding throttled catching locked verify_payment verify_by_status PurchaseService.get
      PurchaseTable.get ◌>>=◌
  throttled-lost window user payload charge w p s wide busy known unpaid uncharged =
      let row = row_of_find (matches_invoice stars payload) p w.db.purchases s.apart known in
      let passes = find-test (matches_invoice stars payload) w.db.purchases p known in
      let provider = invoice-stars p.provider (ground arith) in
      (
        rw (wide, busy),
        rw row (by_status p.status unpaid (no_evidence p p.provider (asked w) provider uncharged)),
      )
    where
      by_status :
          (status : PurchaseStatus)
          → status ≡ pending
          → verify_pending env p.provider p (asked w)
            ≡ (ok (report p VerificationOutcome.no_provider_evidence p.status none none), asked w)
          → verify_by_status env status p (asked w)
            ≡ (ok (report p VerificationOutcome.no_provider_evidence p.status none none), asked w)
      by_status status e h = rw e h
