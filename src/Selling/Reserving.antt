-- ===== src/Selling/Reserving.antt =====
-- `start_purchase` of backend/app/services/purchases.py: which purchases are reserved.
use tg_bot.Base.{
  ◌≡◌, refl, ap, ◌∙◌, ℕ, ◌+◌, ◌*◌, ◌<◌, true, false, String, none, some, ◌∷◌, All-find, find, ltb,
  arith, inl, inr, Option-cases,
}
use tg_bot.Domain.{
  Uuid, DateTime, Decimal, PaymentProvider, stars, crypto, currency_of, pending, Product, User,
  Purchase, price_for, same_provider, purchase_lock_key,
}
use tg_bot.World.{Env, Enforces, Db, World, ok, ◌>>=◌, locked, has_id, is_product, is_user}
use tg_bot.Repository.PurchaseTable
use tg_bot.Repository.PurchaseTable.{matches_invoice, matches_owner}
use tg_bot.Repository.CatalogTable
use tg_bot.Services.PurchaseService.{price, sellable, reserve, start_purchase}
use tg_bot.Sound.Rows.{Apart, IsProductRow, IsSound}
use tg_bot.Sound.Lookup.{find_access_granting-find}
use tg_bot.Payment.Accepted.{All-both, absent-All, fits-accepted, str_eq_comm}

-- the row of a new purchase
abbrev pub new_row : ℕ → Uuid → PaymentProvider → String → Decimal → Uuid → DateTime → Purchase
new_row user product_id provider ext amount id created = record {
  id = id;
  user_id = user;
  product_id = product_id;
  provider = provider;
  status = pending;
  amount = amount;
  currency = currency_of provider;
  external_id = ext;
  telegram_charge_id = none;
  delivered_url = none;
  created_at = created;
  paid_at = none;
  delivered_at = none;
}

-- What a reservation asks for: the buyer is known and owns no copy, the product is on sale at a price
-- of this provider, and the new id and the invoice are not in use.
pub record IsReservable (db : Db) (user : ℕ) (product_id : Uuid) (provider : PaymentProvider)
    (ext : String) (amount : Decimal) (id : Uuid) : Type 0 where
  pub buyer : User
  pub known : find (is_user user) db.users ≡ some buyer
  pub product : Product
  pub exists : find (is_product product_id) db.products ≡ some product
  pub on_sale : product.is_active ≡ true
  pub priced : price_for product provider ≡ some amount
  pub not_owned : find (matches_owner user product_id) db.purchases ≡ none
  pub fresh_id : find (has_id id) db.purchases ≡ none
  pub fresh_invoice : find (matches_invoice provider ext) db.purchases ≡ none

same_provider_comm : (a b : PaymentProvider) → same_provider a b ≡ same_provider b a
same_provider_comm stars stars = refl
same_provider_comm stars crypto = refl
same_provider_comm crypto stars = refl
same_provider_comm crypto crypto = refl

new_row-Apart :
    (user : ℕ) (product_id : Uuid) (provider : PaymentProvider) (ext : String) (amount : Decimal)
    (id : Uuid) (created : DateTime) (r : Purchase)
    → has_id id r ≡ false
    → matches_invoice provider ext r ≡ false
    → Apart (new_row user product_id provider ext amount id created) r
new_row-Apart user product_id provider ext amount id created r i v = record {
  ids = ground arith;
  invoices = ground (arith, same_provider_comm provider r.provider, str_eq_comm ext r.external_id);
  owners = ground arith;
  charges = refl;
}

-- A price is positive in sound tables.
price_positive :
    (p : Product) (provider : PaymentProvider) (amount : Decimal)
    → IsProductRow p
    → price_for p provider ≡ some amount
    → 0 < amount
price_positive p stars amount row e = elim (Option-cases p.price_stars) [
  | inl missing ↦ let bad = (rw missing at e) in absurd (cc bad)
  | inr (n, has) ↦
      let h = (rw has at row.stars) in
      let same : n * 1000000 ≡ amount = (let d = (rw has at e) in ground arith) in
      let big : 0 < n = ground arith in omega arith
]
price_positive p crypto amount row e =
    let h : ltb 0 amount ≡ true = (rw e at row.usdt) in ground arith

module _ (env : Env) (pg : Enforces env) where
  new_row-accepted :
      (db : Db) (user : ℕ) (product_id : Uuid) (provider : PaymentProvider) (ext : String)
      (amount : Decimal) (id : Uuid) (created : DateTime)
      → IsSound db
      → IsReservable db user product_id provider ext amount id
      → env.purchase_violation db db.purchases
          (new_row user product_id provider ext amount id created)
        ≡ none
  new_row-accepted db user product_id provider ext amount id created s fine =
      let row =
        All-find IsProductRow (is_product product_id) db.products fine.product s.products
          fine.exists in
      let positive = price_positive fine.product provider amount row fine.priced in
      fits-accepted env pg db db.purchases (new_row user product_id provider ext amount id created)
        (All-both _ _ _ (new_row-Apart user product_id provider ext amount id created) db.purchases
          (absent-All (has_id id) db.purchases fine.fresh_id)
          (absent-All (matches_invoice provider ext) db.purchases fine.fresh_invoice))
        (record {
          amount = positive;
          paid = refl;
          delivered = refl;
          buyer = rw fine.known;
          product = rw fine.exists;
        })

  create-reserved :
      (w : World) (user : ℕ) (product_id : Uuid) (provider : PaymentProvider) (ext : String)
      (amount : Decimal)
      → IsSound w.db
      → IsReservable w.db user product_id provider ext amount (env.uuid4 w.tick)
      → reserve env user product_id provider ext w ≡ (
        ok (
            new_row user product_id provider ext amount
              (env.uuid4 w.tick)
              (env.clock (w.tick + 1))),
        record w {
          tick = w.tick + 1 + 1 + 1;
          db = record (w.db) {
            purchases =
                new_row user product_id provider ext amount
                  (env.uuid4 w.tick)
                  (env.clock (w.tick + 1))
                ∷ w.db.purchases;
          };
        },
      )
  unfolding reserve sellable CatalogTable.get CatalogTable.get_user PurchaseTable.create
      PurchaseTable.insert PurchaseTable.write ◌>>=◌
  create-reserved w user product_id provider ext amount s fine =
      let unowned : PurchaseTable.find_access_granting user product_id w ≡ (ok none, w) =
        find_access_granting-find w s user product_id ∙ ap (λ o. (ok o, w)) fine.not_owned in
      let cost : price fine.product provider ≡ ok amount = rw (price, fine.priced) in
      let taken =
        new_row-accepted w.db user product_id provider ext amount (env.uuid4 w.tick)
          (env.clock (w.tick + 1)) s fine in
      rw (fine.known, fine.exists, fine.on_sale) (rw fine.priced (rw unowned (rw cost (rw taken))))

  -- Where the database enforces the constraints:
  -- on sound tables, with the lock free, a purchase that is asked for by a known buyer who owns no copy,
  -- of a product on sale at a price of this provider, with an unused invoice and a fresh id, is
  -- reserved: one pending row at that price is added to the purchases, and nothing else changes.
  pub start_purchase-reserved :
      (w : World) (user : ℕ) (product_id : Uuid) (provider : PaymentProvider) (ext : String)
      (amount : Decimal)
      → IsSound w.db
      → IsReservable w.db user product_id provider ext amount (env.uuid4 (w.tick + 1))
      → env.busy w.tick (purchase_lock_key user product_id) ≡ false
      → (let row =
            new_row user product_id provider ext amount
              (env.uuid4 (w.tick + 1))
              (env.clock (w.tick + 1 + 1)) in
          start_purchase env user product_id provider ext w ≡ (
            ok row,
            record w {
              tick = w.tick + 1 + 1 + 1 + 1;
              db = record (w.db) { purchases = row ∷ w.db.purchases };
            },
          ))
  unfolding start_purchase locked ◌>>=◌
  start_purchase-reserved w user product_id provider ext amount s fine free =
      let w₁ = record w { tick = w.tick + 1 } in
      rw (free, create-reserved w₁ user product_id provider ext amount s fine)
