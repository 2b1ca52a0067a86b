-- ===== src/Payment/Repaid.antt =====
-- A refunded invoice that is paid once more: the check before the charge in
-- backend/app/bot/handlers/payments.py beside the settlement after it.
use tg_bot.Base.{◌+◌, ◌≡◌, refl, ap, ◌∙◌, String, true, false, none, some, find, inr}
use tg_bot.Errors.{conflict}
use tg_bot.Domain.{stars, refunded, Product, Purchase, payment_lock_key, grants, is_refunded}
use tg_bot.World.{Env, World, ok, err, ◌>>=◌, is_product, locked, catching}
use tg_bot.Repository.PurchaseTable.{matches_invoice, matches_owner, mark_paid, lock}
use tg_bot.Services.PurchaseService.{confirm_payment, confirm}
use tg_bot.Services.CheckoutService.{settle_payment}
use tg_bot.Bot.Handlers.{Reply, pre_checkout_ok, handle_pre_checkout, handle_successful_payment}
use tg_bot.Sound.Rows.{IsSound}
use tg_bot.Sound.Lookup.{get_by_external_id-find, row_of_find}
use tg_bot.Selling.Precheckout.{MayPay, handle_pre_checkout-MayPay}

-- one question more, and nothing else
abbrev pub asked_once : World → World
asked_once w = record w { tick = w.tick + 1 }

module _ (env : Env) where
  confirm_payment-refunded :
      (payload charge : String) (w : World) (p : Purchase)
      → IsSound w.db
      → find (matches_invoice stars payload) w.db.purchases ≡ some p
      → p.status ≡ refunded
      → env.busy w.tick (payment_lock_key stars payload) ≡ false
      → confirm_payment env stars payload (some charge) none w ≡ (err conflict, asked_once w)
  unfolding confirm_payment confirm locked mark_paid lock ◌>>=◌
  confirm_payment-refunded payload charge w p s known back free =
      let w₁ = asked_once w in
      let stored = row_of_find (matches_invoice stars payload) p w.db.purchases s.apart known in
      let unpaid : grants p ≡ false = rw back refl in
      let gone : is_refunded p.status ≡ true = rw back refl in
      rw (free, get_by_external_id-find w₁ s stars payload, known, stored, unpaid, gone)

  -- On sound tables, where the product of a refunded invoice in Stars is on sale, its buyer does not own
  -- it, and the payment's lock is free: the pre-checkout query lets the charge through, and the
  -- notification of the payment then ends with a ConflictError; no table changes and no link is sent.
  pub refunded-charged :
      (payload charge : String) (w : World) (p : Purchase) (product : Product)
      → IsSound w.db
      → find (matches_invoice stars payload) w.db.purchases ≡ some p
      → p.status ≡ refunded
      → find (is_product p.product_id) w.db.products ≡ some product
      → product.is_active ≡ true
      → find (matches_owner p.user_id p.product_id) w.db.purchases ≡ none
      → env.busy w.tick (payment_lock_key stars payload) ≡ false
      → (handle_pre_checkout payload w ≡ (ok pre_checkout_ok, w))
        × (handle_successful_payment env payload charge w ≡ (err conflict, asked_once w))
  unfolding handle_successful_payment settle_payment ◌>>=◌ catching
  refunded-charged payload charge w p product s known back exists on_sale free unlocked =
      let (r, answered, through) = handle_pre_checkout-MayPay payload w s in
      let may : MayPay payload w.db = record {
        purchase = p;
        known = known;
        unpaid = inr (inr back);
        product = product;
        exists = exists;
        on_sale = on_sale;
        not_owned = free;
      } in
      (
        answered ∙ ap (λ (x : Reply). (ok x, w)) (through.1 may),
        rw (confirm_payment-refunded payload charge w p s known back unlocked) refl,
      )
