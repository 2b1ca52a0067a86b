-- ===== src/Selling/Precheckout.antt =====
-- `handle_pre_checkout` of backend/app/bot/handlers/payments.py.
use tg_bot.Base.{
  ℕ, ◌≡◌, refl, ap, ◌↔◌, ◌⊎◌, true, false, String, Option, none, some, find, if◌then◌else◌, arith,
  inl, inr, Bool-cases, Option-cases,
}
use tg_bot.Domain.{
  Uuid, stars, Product, Purchase, PurchaseStatus, pending, paid, delivered, refunded, expired,
  grants, grants_access,
}
use tg_bot.World.{World, Db, ok, ◌>>=◌, is_product}
use tg_bot.Repository.PurchaseTable.{matches_invoice, matches_owner}
use tg_bot.Repository.CatalogTable
use tg_bot.Services.PurchaseService
use tg_bot.Bot.Handlers.{
  Reply, pre_checkout_ok, pre_checkout_unknown, pre_checkout_already_owned,
  pre_checkout_unavailable, product_on_sale, ask_owned, check_purchase, handle_pre_checkout,
}
use tg_bot.Sound.Rows.{IsSound}
use tg_bot.Sound.Lookup.{get_by_external_id-find, find_access_granting-find}

no_access :
    (p : Purchase)
    → grants p ≡ false
    → (p.status ≡ pending) ⊎ ((p.status ≡ expired) ⊎ (p.status ≡ refunded))
no_access p h = by_status p.status h
  where
    by_status :
        (s : PurchaseStatus)
        → grants_access s ≡ false
        → (s ≡ pending) ⊎ ((s ≡ expired) ⊎ (s ≡ refunded))
    by_status pending h = inl refl
    by_status expired h = inr (inl refl)
    by_status refunded h = inr (inr refl)
    by_status paid h = cc
    by_status delivered h = cc

lacks_access :
    (p : Purchase)
    → (p.status ≡ pending) ⊎ ((p.status ≡ expired) ⊎ (p.status ≡ refunded))
    → grants p ≡ false
lacks_access p (inl e) = rw e refl
lacks_access p (inr (inl e)) = rw e refl
lacks_access p (inr (inr e)) = rw e refl

abbrev if_active : Option Product → Option Product
if_active none = none
if_active (some p) = if p.is_active then some p else none

product_on_sale-find :
    (id : Uuid) (w : World)
    → product_on_sale id w ≡ (ok (if_active (find (is_product id) w.db.products)), w)
unfolding product_on_sale PurchaseService.product_for_checkout CatalogTable.get ◌>>=◌
product_on_sale-find id w = elim (Option-cases (find (is_product id) w.db.products)) [
  | inl missing ↦ rw missing
  | inr (p, found) ↦ elim (Bool-cases p.is_active) [
    | inl active ↦ rw (found, active)
    | inr hidden ↦ rw (found, hidden)
  ]
]

-- The invoice is known, its purchase grants no access, its product is on sale, and its buyer does not
-- own the product. A refunded purchase grants no access either.
pub record MayPay (payload : String) (db : Db) : Type 0 where
  pub purchase : Purchase
  pub known : find (matches_invoice stars payload) db.purchases ≡ some purchase
  pub unpaid :
      (purchase.status ≡ pending) ⊎ ((purchase.status ≡ expired) ⊎ (purchase.status ≡ refunded))
  pub product : Product
  pub exists : find (is_product purchase.product_id) db.products ≡ some product
  pub on_sale : product.is_active ≡ true
  pub not_owned : find (matches_owner purchase.user_id purchase.product_id) db.purchases ≡ none

module _ (payload : String) (w : World) (s : IsSound w.db) where
  find_owned-find :
      (user : ℕ) (product : Uuid)
      → PurchaseService.find_owned user product w
        ≡ (ok (find (matches_owner user product) w.db.purchases), w)
  unfolding PurchaseService.find_owned ◌>>=◌
  find_owned-find user product = rw (find_access_granting-find w s user product)

  find_by_invoice-find :
      PurchaseService.find_by_invoice stars payload w
      ≡ (ok (find (matches_invoice stars payload) w.db.purchases), w)
  unfolding PurchaseService.find_by_invoice ◌>>=◌
  find_by_invoice-find = rw (get_by_external_id-find w s stars payload)

  if_active-exists :
      (p : Purchase) (q : Product)
      → find (matches_invoice stars payload) w.db.purchases ≡ some p
      → grants p ≡ false
      → if_active (find (is_product p.product_id) w.db.products) ≡ some q
      → find (matches_owner p.user_id p.product_id) w.db.purchases ≡ none
      → MayPay payload w.db
  if_active-exists p q known unpaid available free =
      elim (Option-cases (find (is_product p.product_id) w.db.products)) [
        | inl missing ↦ let bad = (rw missing at available) in absurd (cc bad)
        | inr (product, found) ↦ elim (Bool-cases product.is_active) [
          | inl active ↦ record {
            purchase = p;
            known = known;
            unpaid = no_access p unpaid;
            product = product;
            exists = found;
            on_sale = active;
            not_owned = free;
          }
          | inr hidden ↦ let bad = (rw (found, hidden) at available) in absurd (cc bad)
        ]
      ]

  -- On sound tables the pre-checkout query is always answered and changes nothing, and the answer lets
  -- the charge through exactly if the invoice is known, its purchase is pending, expired or refunded,
  -- its product is on sale, and its buyer does not own the product already.
  pub handle_pre_checkout-MayPay :
      (r : Reply) × (handle_pre_checkout payload w ≡ (ok r, w))
      × ((r ≡ pre_checkout_ok) ↔ MayPay payload w.db)
  unfolding handle_pre_checkout check_purchase ask_owned ◌>>=◌
  handle_pre_checkout-MayPay =
      elim (Option-cases (find (matches_invoice stars payload) w.db.purchases)) [
        | inl unknown ↦ (
          pre_checkout_unknown,
          rw (find_by_invoice-find, unknown),
          (λ e. absurd (cc e), λ m. let known = m.known in absurd (cc (known, unknown))),
        )
        | inr (p, known) ↦ elim (Bool-cases (grants p)) [
          | inl owned ↦ (
            pre_checkout_already_owned,
            rw (find_by_invoice-find, known, owned),
            (
              λ e. absurd (cc e),
              λ m.
                  let k = m.known in
                  let u = lacks_access m.purchase m.unpaid in
                  let same : m.purchase ≡ p = ground arith in
                  absurd (cc (ap grants same, u, owned)),
            ),
          )
          | inr unpaid ↦
              elim (Option-cases (if_active (find (is_product p.product_id) w.db.products))) [
                | inl unavailable ↦ (
                  pre_checkout_unavailable,
                  rw (find_by_invoice-find, known, unpaid, product_on_sale-find, unavailable),
                  (
                    λ e. absurd (cc e),
                    λ m.
                        let k = m.known in
                        let same : m.purchase ≡ p = ground arith in
                        let exists = (rw same at m.exists) in
                        let active = (rw (exists, m.on_sale) at unavailable) in absurd (cc active),
                  ),
                )
                | inr (q, available) ↦
                    elim (Option-cases
                      (find (matches_owner p.user_id p.product_id) w.db.purchases)) [
                        | inr (o, owner) ↦ (
                          pre_checkout_already_owned,
                          rw (
                            find_by_invoice-find, known, unpaid, product_on_sale-find, available,
                            find_owned-find, owner,
                          ),
                          (
                            λ e. absurd (cc e),
                            λ m.
                                let k = m.known in
                                let same : m.purchase ≡ p = ground arith in
                                let none_owned = (rw same at m.not_owned) in
                                absurd (cc (none_owned, owner)),
                          ),
                        )
                        | inl free ↦ (
                          pre_checkout_ok,
                          rw (
                            find_by_invoice-find, known, unpaid, product_on_sale-find, available,
                            find_owned-find, free,
                          ),
                          (λ e. if_active-exists p q known unpaid available free, λ m. refl),
                        )
                      ]
              ]
        ]
      ]
