-- ===== src/Sound/Rows.antt =====
-- When the rows of the three tables fit together.
use tg_bot.Base.{
  ◌<◌, ◌≡◌, Bool, true, false, not, ◌||◌, none, List, [], ◌∷◌, is_some, all_of, All, All-select,
  select, find, ltb, ◌==◌, str_eq, arith, inl, inr, Bool-cases,
}
use tg_bot.Errors.{
  pk_purchases, uq_purchases_provider_external_id, uq_purchases_user_product_paid,
  uq_purchases_telegram_charge_id, amount_positive, paid_at_present, delivery_complete,
  fk_purchases_user_id, fk_purchases_product_id, pk_products, uq_products_slug, slug_format,
  price_present, price_stars_positive, price_usdt_positive,
}
use tg_bot.Domain.{Product, User, Purchase}
use tg_bot.Domain.Slug.{matches_slug_pattern}
use tg_bot.World.{
  Env, Enforces, Db, purchase_holds, product_holds, same_invoice, both_owned, same_charge,
  paid_at_ok, delivery_ok, is_user, is_product, positive_price,
}

-- what the constraints ask of one purchase
pub record IsPurchaseRow (products : List Product) (users : List User) (p : Purchase) : Type 0 where
  pub amount : 0 < p.amount
  pub paid : paid_at_ok p ≡ true
  pub delivered : delivery_ok p ≡ true
  pub buyer : is_some (find (is_user p.user_id) users) ≡ true
  pub product : is_some (find (is_product p.product_id) products) ≡ true

-- what they ask of two
pub record Apart (p q : Purchase) : Type 0 where
  pub ids : (p.id == q.id) ≡ false
  pub invoices : same_invoice p q ≡ false
  pub owners : both_owned p q ≡ false
  pub charges : same_charge p q ≡ false

abbrev pub AreApart : List Purchase → Type 0
AreApart [] = Unit
AreApart (p ∷ ps) = All (Apart p) ps × AreApart ps

pub record IsProductRow (p : Product) : Type 0 where
  pub slug : matches_slug_pattern p.slug ≡ true
  pub priced : (is_some p.price_stars || is_some p.price_usdt) ≡ true
  pub stars : positive_price p.price_stars ≡ true
  pub usdt : positive_price p.price_usdt ≡ true

pub record ProductsApart (p q : Product) : Type 0 where
  pub ids : (p.id == q.id) ≡ false
  pub slugs : str_eq p.slug q.slug ≡ false

abbrev pub AreProductsApart : List Product → Type 0
AreProductsApart [] = Unit
AreProductsApart (p ∷ ps) = All (ProductsApart p) ps × AreProductsApart ps

pub record IsSound (db : Db) : Type 0 where
  pub purchases : All (IsPurchaseRow db.products db.users) db.purchases
  pub apart : AreApart db.purchases
  pub products : All IsProductRow db.products
  pub products_apart : AreProductsApart db.products

pub AreApart-select :
    (f : Purchase → Bool) (ps : List Purchase) → AreApart ps → AreApart (select f ps)
AreApart-select f [] h = tt
AreApart-select f (p ∷ ps) h = elim (Bool-cases (f p)) [
  | inl hit ↦ rw hit (All-select (Apart p) f ps h.0, AreApart-select f ps h.1)
  | inr miss ↦ rw miss (AreApart-select f ps h.1)
]

pub AreProductsApart-select :
    (f : Product → Bool) (ps : List Product) → AreProductsApart ps → AreProductsApart (select f ps)
AreProductsApart-select f [] h = tt
AreProductsApart-select f (p ∷ ps) h = elim (Bool-cases (f p)) [
  | inl hit ↦ rw hit (All-select (ProductsApart p) f ps h.0, AreProductsApart-select f ps h.1)
  | inr miss ↦ rw miss (AreProductsApart-select f ps h.1)
]

AreApart_of_tests :
    (p : Purchase) (rows : List Purchase)
    → all_of (λ q. not (p.id == q.id)) rows ≡ true
    → all_of (λ q. not (same_invoice p q)) rows ≡ true
    → all_of (λ q. not (both_owned p q)) rows ≡ true
    → all_of (λ q. not (same_charge p q)) rows ≡ true
    → All (Apart p) rows
AreApart_of_tests p [] i v o c = tt
AreApart_of_tests p (q ∷ rows) i v o c = (
  record {
    ids = ground arith;
    invoices = ground arith;
    owners = ground arith;
    charges = ground arith;
  },
  AreApart_of_tests p rows (ground arith) (ground arith) (ground arith) (ground arith),
)

AreProductsApart_of_tests :
    (p : Product) (rows : List Product)
    → all_of (λ q. not (p.id == q.id)) rows ≡ true
    → all_of (λ q. not (str_eq p.slug q.slug)) rows ≡ true
    → All (ProductsApart p) rows
AreProductsApart_of_tests p [] i s = tt
AreProductsApart_of_tests p (q ∷ rows) i s = (
  record { ids = ground arith; slugs = ground arith },
  AreProductsApart_of_tests p rows (ground arith) (ground arith),
)

module _ (env : Env) (pg : Enforces env) where
  -- A row that PostgreSQL accepts fits the rows beside it.
  pub accepted-Apart :
      (db : Db) (rows : List Purchase) (p : Purchase)
      → env.purchase_violation db rows p ≡ none
      → All (Apart p) rows
  unfolding purchase_holds
  accepted-Apart db rows p e =
      AreApart_of_tests p rows (pg.purchase_accepted db rows p pk_purchases e)
        (pg.purchase_accepted db rows p uq_purchases_provider_external_id e)
        (pg.purchase_accepted db rows p uq_purchases_user_product_paid e)
        (pg.purchase_accepted db rows p uq_purchases_telegram_charge_id e)

  pub accepted-IsPurchaseRow :
      (db : Db) (rows : List Purchase) (p : Purchase)
      → env.purchase_violation db rows p ≡ none
      → IsPurchaseRow db.products db.users p
  unfolding purchase_holds
  accepted-IsPurchaseRow db rows p e = record {
    amount =
        let h : ltb 0 p.amount ≡ true = pg.purchase_accepted db rows p amount_positive e in
        ground arith;
    paid = pg.purchase_accepted db rows p paid_at_present e;
    delivered = pg.purchase_accepted db rows p delivery_complete e;
    buyer = pg.purchase_accepted db rows p fk_purchases_user_id e;
    product = pg.purchase_accepted db rows p fk_purchases_product_id e;
  }

  pub accepted-ProductsApart :
      (rows : List Product) (p : Product)
      → env.product_violation rows p ≡ none
      → All (ProductsApart p) rows
  unfolding product_holds
  accepted-ProductsApart rows p e =
      AreProductsApart_of_tests p rows (pg.product_accepted rows p pk_products e)
        (pg.product_accepted rows p uq_products_slug e)

  pub accepted-IsProductRow :
      (rows : List Product) (p : Product) → env.product_violation rows p ≡ none → IsProductRow p
  unfolding product_holds
  accepted-IsProductRow rows p e = record {
    slug = pg.product_accepted rows p slug_format e;
    priced = pg.product_accepted rows p price_present e;
    stars = pg.product_accepted rows p price_stars_positive e;
    usdt = pg.product_accepted rows p price_usdt_positive e;
  }
