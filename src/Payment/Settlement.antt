-- ===== src/Payment/Settlement.antt =====
-- `settle_payment` of backend/app/services/checkout.py: confirm, then deliver, once.
use tg_bot.Base.{
  ◌+◌, ◌≡◌, subst, ◌∙◌, true, false, not, ◌&&◌, String, Option, none, some, find, find-test,
  is_some, arith,
}
use tg_bot.Domain.{
  DateTime, PaymentProvider, delivered, Purchase, grants, DeliveryResult, already_delivered,
  succeeded, payment_lock_key, delivery_lock_key,
}
use tg_bot.World.{Env, Enforces, World, Result, ok, ◌>>=◌, locked, has_id}
use tg_bot.World.Inversion.{bind-ok, or_raise-ok, unit_of_work-ok, locked-ok}
use tg_bot.Repository.PurchaseTable
use tg_bot.Repository.PurchaseTable.{truthy, matches_invoice}
use tg_bot.Services.PurchaseService.{confirm, confirm_payment}
use tg_bot.Services.CheckoutService.{settle_payment}
use tg_bot.Sound.Rows.{IsSound}
use tg_bot.Sound.Lookup.{get_by_external_id-find, find_of_invoice, row_of_find}
use tg_bot.Sound.Evolution.{Evolves}
use tg_bot.Sound.Checkout
use tg_bot.Payment.Stored.{IsPaidRow, mark_paid-ok}
use tg_bot.Payment.HandOver.{deliver_purchase-delivered, deliver_purchase-ok}

-- The purchase behind an invoice is stored as delivered.
abbrev pub InvoiceDelivered : World → PaymentProvider → String → Type 0
InvoiceDelivered w provider ext =
    (q : Purchase) × (find (matches_invoice provider ext) w.db.purchases ≡ some q)
    × (q.status ≡ delivered)

module _ (env : Env) where
  confirm_payment-ok :
      (provider : PaymentProvider) (ext : String) (charge : Option String) (t : Option DateTime)
      (w : World) (q : Purchase) (w' : World)
      → IsSound w.db
      → confirm_payment env provider ext charge t w ≡ (ok q, w')
      → (p : Purchase) × (find (matches_invoice provider ext) w.db.purchases ≡ some p)
        × IsPaidRow env charge p.id w' q
  unfolding confirm_payment confirm
  confirm_payment-ok provider ext charge t w q w' s h =
      let (free, body) = locked-ok env _ _ w q w' h in
      let w₁ = record w { tick = w.tick + 1 } in
      let (found, w₂, query, rest) = bind-ok _ _ w₁ q w' (unit_of_work-ok _ w₁ q w' body) in
      let looked = get_by_external_id-find w₁ s provider ext in
      let (p, w₃, taken, marking) = bind-ok _ _ w₂ q w' rest in
      let (have, here) = or_raise-ok _ found w₂ w₃ p taken in
      let same : find (matches_invoice provider ext) w.db.purchases ≡ found = ground arith in
      (p, same ∙ have, mark_paid-ok env p.id t charge w₃ q w' marking)

  module _ (pg : Enforces env) where
    -- Where the database enforces the constraints:
    -- on sound tables, a settlement that returns a successful delivery leaves the purchase behind the
    -- invoice stored as delivered.
    pub settle_payment-ok :
        (provider : PaymentProvider) (ext : String) (charge : Option String) (t : Option DateTime)
        (w : World) (r : DeliveryResult) (w' : World)
        → IsSound w.db
        → settle_payment env provider ext charge t w ≡ (ok r, w')
        → succeeded r ≡ true
        → InvoiceDelivered w' provider ext
    unfolding settle_payment
    settle_payment-ok provider ext charge t w r w' s h good =
        let (q, w₁, confirming, delivering) = bind-ok _ _ w r w' h in
        let (p, found, row) = confirm_payment-ok provider ext charge t w q w₁ s confirming in
        let (z, stored, status) = deliver_purchase-ok env q.id w₁ r w' delivering good in
        let change =
          subst (λ (o : Result DeliveryResult × World). Evolves w.db o.1.db) h
            ((Checkout.settle_payment-Keeps env pg provider ext charge t).at w) in
        let (y, later, follows) =
          change.purchases p.id p
            (row_of_find (matches_invoice provider ext) p w.db.purchases s.apart found) in
        let here = subst (λ k. find (has_id k) w'.db.purchases ≡ some z) row.same_id stored in
        let same : y ≡ z = ground arith in
        let hit = find-test (matches_invoice provider ext) w.db.purchases p found in
        let still : matches_invoice provider ext y ≡ true =
          rw (follows.provider, follows.invoice) hit in
        (
          z,
          find_of_invoice provider ext p.id z w'.db.purchases (change.sound s).apart here
              (subst (λ v. matches_invoice provider ext v ≡ true) same still),
          status,
        )

  -- The answer to a settlement of an invoice that is delivered already.
  abbrev pub nothing_to_do : Purchase → DeliveryResult
  nothing_to_do q = record {
    status = already_delivered;
    purchase_id = q.id;
    attempts = 0;
    error = none;
  }

  confirm_payment-replay :
      (provider : PaymentProvider) (ext : String) (charge : Option String) (t : Option DateTime)
      (w : World) (q : Purchase)
      → IsSound w.db
      → find (matches_invoice provider ext) w.db.purchases ≡ some q
      → grants q ≡ true
      → (truthy charge && not (is_some q.telegram_charge_id)) ≡ false
      → env.busy w.tick (payment_lock_key provider ext) ≡ false
      → confirm_payment env provider ext charge t w ≡ (ok q, record w { tick = w.tick + 1 })
  unfolding confirm_payment confirm locked PurchaseTable.mark_paid PurchaseTable.lock
      PurchaseTable.note_charge ◌>>=◌
  confirm_payment-replay provider ext charge t w q s found owned noted free =
      let w₁ = record w { tick = w.tick + 1 } in
      let row = row_of_find (matches_invoice provider ext) q w.db.purchases s.apart found in
      rw (free, get_by_external_id-find w₁ s provider ext, found, row, owned, noted)

  -- On sound tables, with the locks free, a replayed notification for a delivered purchase whose charge
  -- is noted, or that carries none, sends nothing and changes nothing: it is answered with
  -- already_delivered, and only two questions, for the two locks, were asked.
  pub settle_payment-replay :
      (provider : PaymentProvider) (ext : String) (charge : Option String) (t : Option DateTime)
      (w : World) (q : Purchase)
      → IsSound w.db
      → find (matches_invoice provider ext) w.db.purchases ≡ some q
      → q.status ≡ delivered
      → (truthy charge && not (is_some q.telegram_charge_id)) ≡ false
      → env.busy w.tick (payment_lock_key provider ext) ≡ false
      → env.busy (w.tick + 1) (delivery_lock_key q.id) ≡ false
      → settle_payment env provider ext charge t w
        ≡ (ok (nothing_to_do q), record w { tick = w.tick + 1 + 1 })
  unfolding settle_payment ◌>>=◌
  settle_payment-replay provider ext charge t w q s found status noted free_payment free_delivery =
      let w₁ = record w { tick = w.tick + 1 } in
      let row = row_of_find (matches_invoice provider ext) q w.db.purchases s.apart found in
      rw (
        confirm_payment-replay provider ext charge t w q s found (ground arith) noted free_payment,
        deliver_purchase-delivered env w₁ q s row status free_delivery,
      )
