-- ===== src/Payment/Twice.antt =====
-- A second payment for a product that its buyer owns: `confirm_payment` of
-- backend/app/services/purchases.py against the index uq_purchases_user_product_paid.
use tg_bot.Base.{
  ◌≡◌, refl, ap, subst, ◌∙◌, ◌+◌, false, not, String, Option, none, some, List, All, All-find,
  All-select, find, find-test, find-select, ◌==◌, arith, inl, inr, Bool-cases, Option-cases,
}
use tg_bot.Errors.{
  Constraint, duplicate_purchase, pk_purchases, uq_purchases_provider_external_id,
  uq_purchases_user_product_paid, uq_purchases_telegram_charge_id, amount_positive, paid_at_present,
  delivery_complete, fk_purchases_user_id, fk_purchases_product_id,
}
use tg_bot.Domain.{DateTime, PaymentProvider, Purchase, grants, is_refunded, payment_lock_key}
use tg_bot.World.{
  Env, Enforces, Db, World, err, ◌>>=◌, locked, has_id, purchase_holds, same_invoice, same_charge,
}
use tg_bot.Repository.PurchaseTable.{
  without, matches_invoice, matches_owner, matches_charge, translate, pay, update, write, mark_paid,
  lock, moment_or_now,
}
use tg_bot.Services.PurchaseService.{confirm, confirm_payment}
use tg_bot.Sound.Rows.{Apart, IsPurchaseRow, IsSound, accepted-Apart}
use tg_bot.Sound.Lookup.{get_by_external_id-find, row_of_find}
use tg_bot.Payment.Accepted.{all_of-All, All-both, Apart-from_others}
use tg_bot.Payment.Paying.{paid_row, paid_charge, absent_charge}

-- what the constraints other than the one on owners ask of two rows
abbrev Distinct : Purchase → Purchase → Type 0
Distinct p q = ((p.id == q.id) ≡ false) × (same_invoice p q ≡ false) × (same_charge p q ≡ false)

blamed_for_owner :
    (db : Db) (rows : List Purchase) (p : Purchase)
    → All (Distinct p) rows
    → IsPurchaseRow db.products db.users p
    → (c : Constraint) → purchase_holds c db rows p ≡ false
    → c ≡ uq_purchases_user_product_paid
unfolding purchase_holds
blamed_for_owner db rows p a f uq_purchases_user_product_paid h = refl
blamed_for_owner db rows p a f pk_purchases h =
    let good =
      all_of-All (Distinct p) (λ q. not (p.id == q.id)) (λ q d. let e = d.0 in ground arith) rows
        a in
    absurd (cc (good, h))
blamed_for_owner db rows p a f uq_purchases_provider_external_id h =
    let good =
      all_of-All (Distinct p) (λ q. not (same_invoice p q)) (λ q d. let e = d.1 in ground arith)
        rows a in
    absurd (cc (good, h))
blamed_for_owner db rows p a f uq_purchases_telegram_charge_id h =
    let good =
      all_of-All (Distinct p) (λ q. not (same_charge p q)) (λ q d. let e = d.2 in ground arith) rows
        a in
    absurd (cc (good, h))
blamed_for_owner db rows p a f amount_positive h = let e = f.amount in absurd (ground arith)
blamed_for_owner db rows p a f paid_at_present h = let e = f.paid in absurd (cc (e, h))
blamed_for_owner db rows p a f delivery_complete h = let e = f.delivered in absurd (cc (e, h))
blamed_for_owner db rows p a f fk_purchases_user_id h = let e = f.buyer in absurd (cc (e, h))
blamed_for_owner db rows p a f fk_purchases_product_id h = let e = f.product in absurd (cc (e, h))
blamed_for_owner db rows p a f _ h = absurd (cc h)

-- The owner's row stands among the others.
owner_among_others :
    (p o : Purchase) (db : Db)
    → IsSound db
    → find (has_id p.id) db.purchases ≡ some p
    → grants p ≡ false
    → find (matches_owner p.user_id p.product_id) db.purchases ≡ some o
    → find (has_id o.id) (without p.id db.purchases) ≡ some o
owner_among_others p o db s stored unpaid owned =
    let row = row_of_find (matches_owner p.user_id p.product_id) o db.purchases s.apart owned in
    let access = find-test (matches_owner p.user_id p.product_id) db.purchases o owned in
    elim (Bool-cases (o.id == p.id)) [
      | inl hit ↦
          let same : o.id ≡ p.id = ground arith in
          let here = subst (λ k. find (has_id k) db.purchases ≡ some o) same row in
          let equal : o ≡ p = ground arith in absurd (ground arith)
      | inr miss ↦
          find-select (λ q. not (q.id == p.id)) (has_id o.id) db.purchases (λ x e. ground arith)
          ∙ row
    ]

module _ (env : Env) (pg : Enforces env) where
  paid_row-blamed :
      (db : Db) (p o : Purchase) (moment : DateTime) (charge : Option String)
      → IsSound db
      → find (has_id p.id) db.purchases ≡ some p
      → grants p ≡ false
      → find (matches_owner p.user_id p.product_id) db.purchases ≡ some o
      → ((c : String) → charge ≡ some c → find (matches_charge c) db.purchases ≡ none)
      → env.purchase_violation db (without p.id db.purchases) (paid_row p moment charge)
        ≡ some uq_purchases_user_product_paid
  paid_row-blamed db p o moment charge s stored unpaid owned fresh =
      let rows = without p.id db.purchases in
      let q : Purchase = paid_row p moment charge in
      elim (Option-cases (env.purchase_violation db rows q)) [
        | inl accepted ↦
            let among = owner_among_others p o db s stored unpaid owned in
            let apart =
              All-find (Apart q) (has_id o.id) rows o (accepted-Apart env pg db rows q accepted)
                among in
            let free = apart.owners in
            let own = find-test (matches_owner p.user_id p.product_id) db.purchases o owned in
            absurd (ground arith)
        | inr (c, refused) ↦
            let row =
              All-find (IsPurchaseRow db.products db.users) (has_id p.id) db.purchases p s.purchases
                stored in
            let notes =
              All-select _ (λ r. not (r.id == p.id)) db.purchases
                (absent_charge db.purchases charge fresh) in
            let distinct : All (Distinct q) rows =
              All-both (Apart p) _ (Distinct q)
                (λ r a f. (a.ids, a.invoices, paid_charge p r moment charge a.charges f)) rows
                (Apart-from_others p db.purchases s.apart stored) notes in
            refused
            ∙ ap some (
                blamed_for_owner db rows q distinct
                  (record {
                    amount = row.amount;
                    paid = refl;
                    delivered = refl;
                    buyer = row.buyer;
                    product = row.product;
                  })
                  c (pg.purchase_blamed db rows q c refused))
      ]

  -- Where the database enforces the constraints:
  -- on sound tables, with the lock free, a payment of an unpaid purchase whose buyer owns the product by
  -- another purchase, with a charge that is noted nowhere, raises duplicate_purchase and changes no
  -- table.
  pub confirm_payment-owned :
      (provider : PaymentProvider) (ext : String) (charge : Option String) (w : World)
      (p o : Purchase)
      → IsSound w.db
      → find (matches_invoice provider ext) w.db.purchases ≡ some p
      → grants p ≡ false
      → is_refunded p.status ≡ false
      → find (matches_owner p.user_id p.product_id) w.db.purchases ≡ some o
      → ((c : String) → charge ≡ some c → find (matches_charge c) w.db.purchases ≡ none)
      → env.busy w.tick (payment_lock_key provider ext) ≡ false
      → confirm_payment env provider ext charge none w
        ≡ (err duplicate_purchase, record w { tick = w.tick + 1 + 1 })
  unfolding confirm_payment confirm locked mark_paid lock moment_or_now pay update write translate
      ◌>>=◌
  confirm_payment-owned provider ext charge w p o s found unpaid kept owned fresh free =
      let w₁ = record w { tick = w.tick + 1 } in
      let stored = row_of_find (matches_invoice provider ext) p w.db.purchases s.apart found in
      rw (
        free,
        get_by_external_id-find w₁ s provider ext,
        found,
        stored,
        unpaid,
        kept,
        paid_row-blamed w.db p o (env.clock (w.tick + 1)) charge s stored unpaid owned fresh,
      )
