-- ===== src/Payment/Reaching.antt =====
-- `settle_payment` of backend/app/services/checkout.py, from the payment to the recorded delivery.
use tg_bot.Base.{
  ◌≡◌, refl, sym, ap, subst, ◌∙◌, ℕ, ◌+◌, ◌<◌, true, false, String, Option, none, some, ◌∷◌,
  All-map, All-find, find, ◌==◌, arith, inl,
}
use tg_bot.Domain.{
  DateTime, PaymentProvider, Product, User, Purchase, grants, paid, delivered, DeliveryMessage,
  DeliveryResult, is_delivered, succeeded, payment_lock_key, delivery_lock_key,
}
use tg_bot.World.{
  Env, Enforces, Db, World, Result, accepted, ok, ◌>>=◌, locked, has_id, is_product, is_user,
}
use tg_bot.Repository.PurchaseTable
use tg_bot.Repository.PurchaseTable.{without, matches_invoice}
use tg_bot.Repository.CatalogTable
use tg_bot.Services.PurchaseService
use tg_bot.Services.DeliveryService.{
  load_context, message_of, ended, send_with_retries, record_delivery, hand_over, deliver,
  deliver_purchase,
}
use tg_bot.Services.CheckoutService.{settle_payment}
use tg_bot.Sound.Rows.{Apart, IsPurchaseRow, IsSound}
use tg_bot.Sound.Services
use tg_bot.Delivery.Retries.{
  Attempted, send_with_retries-Attempted, send_with_retries-decided, answer_to, is_transient,
}
use tg_bot.Payment.Accepted.{Apart-from_others, fits-accepted}
use tg_bot.Payment.Paying.{paid_row, IsPayable, rewritten, confirm_payment-paid}

-- the row that a recorded delivery writes
abbrev pub delivered_row : Purchase → DateTime → String → Purchase
delivered_row p moment url = record p {
  status = delivered;
  delivered_url = some url;
  delivered_at = some moment;
}

-- the message with the product's link
abbrev pub link_message : Env → Purchase → Product → User → DeliveryMessage
link_message env p product user =
    message_of env (record { purchase = p; product = product; user = user }) p.id false

module _ (env : Env) (pg : Enforces env) where
  delivered_row-Apart :
      (p : Purchase) (moment : DateTime) (url : String) (r : Purchase)
      → grants p ≡ true
      → Apart p r
      → Apart (delivered_row p moment url) r
  delivered_row-Apart p moment url r access a = record {
    ids = a.ids;
    invoices = a.invoices;
    owners = let h = a.owners in ground arith;
    charges = a.charges;
  }

  delivered_row-accepted :
      (db : Db) (p : Purchase) (moment : DateTime) (url : String)
      → IsSound db
      → find (has_id p.id) db.purchases ≡ some p
      → grants p ≡ true
      → env.purchase_violation db (without p.id db.purchases) (delivered_row p moment url) ≡ none
  delivered_row-accepted db p moment url s stored access =
      let row =
        All-find (IsPurchaseRow db.products db.users) (has_id p.id) db.purchases p s.purchases
          stored in
      let apart = Apart-from_others p db.purchases s.apart stored in
      fits-accepted env pg db (without p.id db.purchases) (delivered_row p moment url)
        (All-map _ _ (λ r a. delivered_row-Apart p moment url r access a) _ apart)
        (record {
          amount = row.amount;
          paid = let h = row.paid in ground arith;
          delivered = refl;
          buyer = row.buyer;
          product = row.product;
        })

  -- On sound tables the delivery of a paid purchase is recorded.
  mark_delivered-done :
      (w : World) (p : Purchase) (url : String)
      → IsSound w.db
      → find (has_id p.id) w.db.purchases ≡ some p
      → p.status ≡ paid
      → PurchaseService.mark_delivered env p.id url w ≡ (
        ok (delivered_row p (env.clock w.tick) url),
        rewritten (record w { tick = w.tick + 1 }) (delivered_row p (env.clock w.tick) url),
      )
  unfolding PurchaseService.mark_delivered PurchaseTable.mark_delivered PurchaseTable.lock
      PurchaseTable.moment_or_now PurchaseTable.update PurchaseTable.write ◌>>=◌
  mark_delivered-done w p url s stored status =
      let fresh : is_delivered p.status ≡ false = ground arith in
      let access : grants p ≡ true = ground arith in
      rw (
        stored,
        fresh,
        access,
        delivered_row-accepted w.db p (env.clock w.tick) url s stored access,
      )

  -- On sound tables, with the lock free, a paid purchase whose message is accepted at attempt `k + 1`,
  -- within the attempts allowed and after transient answers only, is sent once and recorded.
  deliver_purchase-sent :
      (w : World) (q : Purchase) (product : Product) (user : User) (k : ℕ)
      → IsSound w.db
      → find (has_id q.id) w.db.purchases ≡ some q
      → q.status ≡ paid
      → find (is_product q.product_id) w.db.products ≡ some product
      → find (is_user q.user_id) w.db.users ≡ some user
      → env.busy w.tick (delivery_lock_key q.id) ≡ false
      → (let m =
            message_of env (record { purchase = q; product = product; user = user }) q.id false in
          k < env.delivery.max_attempts
          → ((j : ℕ) → j < k → is_transient env m (answer_to env m (w.tick + 1) j) ≡ true)
          → answer_to env m (w.tick + 1) k ≡ accepted
          → (w' : World) × (deliver_purchase env q.id w ≡ (ok (ended env m (1 + k) accepted), w'))
            × (w'.outbox ≡ m ∷ w.outbox))
  unfolding deliver_purchase deliver hand_over record_delivery load_context PurchaseTable.get
      CatalogTable.get CatalogTable.get_user locked ◌>>=◌
  deliver_purchase-sent w q product user k s stored status ep eu free h before last =
      let w₁ = record w { tick = w.tick + 1 } in
      let m : DeliveryMessage =
        message_of env (record { purchase = q; product = product; user = user }) q.id false in
      let out : Result DeliveryResult × World = send_with_retries env m w₁ in
      let seen : is_transient env m (answer_to env m w₁.tick k) ≡ false =
        ap (is_transient env m) last in
      let answered : out.0 ≡ ok (ended env m (1 + k) accepted) =
        send_with_retries-decided env m k w₁ h before (inl seen)
        ∙ ap (λ a. ok (ended env m (1 + k) a)) last in
      let all : Attempted env m env.delivery.max_attempts 1 w₁ out =
        send_with_retries-Attempted env m w₁ (omega arith) in
      let whole : out ≡ (ok (ended env m (1 + k) accepted), out.1) =
        ap (λ r. (r, out.1)) answered in
      let done =
        mark_delivered-done out.1 q product.delivery_url (subst IsSound (sym all.db) s)
          (subst (λ (db : Db). find (has_id q.id) db.purchases ≡ some q) (sym all.db) stored)
          status in
      let fresh : is_delivered q.status ≡ false = ground arith in
      let access : grants q ≡ true = ground arith in
      let known = all.returned in
      let good : succeeded all.result ≡ true = ground arith in
      let after : World =
        rewritten (record (out.1) { tick = out.1.tick + 1 })
          (delivered_row q (env.clock out.1.tick) product.delivery_url) in
      (
        after,
        rw (free, stored, ep, eu, fresh, access, whole, done),
        (let sent_one = all.outbox in ground arith),
      )

  -- Where the database enforces the constraints:
  -- on sound tables, where the locks are free and nothing stands against the payment of the invoice,
  -- whose purchase is pending or expired, and Telegram accepts the message at attempt `k + 1`, within
  -- the attempts allowed and after transient answers only, a notification of the payment is settled: the
  -- result says so, and Telegram accepted exactly one message more, the one with the product's link. A
  -- message that Telegram sends on although its answer was lost is not counted.
  pub settle_payment-sent :
      (provider : PaymentProvider) (ext : String) (charge : Option String) (w : World)
      (p : Purchase) (product : Product) (user : User) (k : ℕ)
      → IsSound w.db
      → find (matches_invoice provider ext) w.db.purchases ≡ some p
      → IsPayable w.db.purchases p charge
      → find (is_product p.product_id) w.db.products ≡ some product
      → find (is_user p.user_id) w.db.users ≡ some user
      → env.busy w.tick (payment_lock_key provider ext) ≡ false
      → env.busy (w.tick + 1 + 1) (delivery_lock_key p.id) ≡ false
      → k < env.delivery.max_attempts
      → ((j : ℕ)
          → j < k
          → is_transient env
              (link_message env p product user)
              (answer_to env (link_message env p product user) (w.tick + 1 + 1 + 1) j)
            ≡ true)
      → answer_to env (link_message env p product user) (w.tick + 1 + 1 + 1) k ≡ accepted
      → (w' : World) × (settle_payment env provider ext charge none w
          ≡ (ok (ended env (link_message env p product user) (1 + k) accepted), w'))
        × (w'.outbox ≡ link_message env p product user ∷ w.outbox)
  unfolding settle_payment ◌>>=◌
  settle_payment-sent provider ext charge w p product user k s found fine ep eu free_payment
        free_delivery h before last =
      let moment : DateTime = env.clock (w.tick + 1) in
      let q : Purchase = paid_row p moment charge in
      let w₂ : World = rewritten (record w { tick = w.tick + 1 + 1 }) q in
      let confirmed =
        confirm_payment-paid env pg provider ext charge w p s found fine free_payment in
      let sound : IsSound w₂.db =
        subst (λ (o : Result Purchase × World). IsSound o.1.db) confirmed
          (((Services.confirm_payment-Keeps env pg provider ext charge none).at w).sound s) in
      let here : find (has_id q.id) w₂.db.purchases ≡ some q =
        (let t : (q.id == q.id) ≡ true = ground arith in rw t) in
      let (w', delivering, sent_one) =
        deliver_purchase-sent w₂ q product user k sound here refl ep eu free_delivery h before
          last in
      (w', rw (confirmed, delivering), sent_one)
