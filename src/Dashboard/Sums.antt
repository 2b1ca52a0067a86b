-- ===== src/Dashboard/Sums.antt =====
-- backend/app/infrastructure/db/repositories/stats.py, and the overview of
-- backend/app/services/stats.py.
use tg_bot.Base.{
  ℕ, ◌+◌, ◌/◌, String, Bool, true, false, ◌&&◌, ◌||◌, Option, none, some, or_else, List, [], ◌∷◌,
  length, take, select, leb, ltb, ◌==◌, if◌then◌else◌,
}
use tg_bot.Domain.{
  Uuid, DateTime, Decimal, Currency, xtr, usdt, Product, Purchase, PurchaseRecord, grants,
}
use tg_bot.World.{Db}
use tg_bot.Search.Purchases.{joined}
use tg_bot.Search.Products.{count_products}
use tg_bot.Dashboard.Periods.{StatsPeriod, start}

abbrev pub same_currency : Currency → Currency → Bool
same_currency xtr xtr = true
same_currency usdt usdt = true
same_currency _ _ = false

-- `PurchaseModel.paid_at >= start`, which is no match where the date is NULL
abbrev pub paid_from : Option DateTime → Option DateTime → Bool
paid_from none paid_at = true
paid_from (some from) none = false
paid_from (some from) (some paid_at) = leb from paid_at

-- `_window`
unfoldable pub in_window : StatsPeriod → DateTime → Purchase → Bool
in_window period now p = grants p && paid_from (start period now) p.paid_at

-- `_amount_in`
unfoldable pub amount_in : Currency → List Purchase → Decimal
amount_in currency [] = 0
amount_in currency (p ∷ ps) =
    (if same_currency p.currency currency then p.amount else 0) + amount_in currency ps

pub record RevenueSummary : Type 0 where
  pub period : StatsPeriod
  pub purchases_count : ℕ
  pub stars_amount : ℕ
  pub usdt_amount : Decimal

-- `revenue`; `int()` of the sum of Stars drops what is below one
unfoldable pub revenue : StatsPeriod → DateTime → Db → RevenueSummary
revenue period now db =
    let rows = select (in_window period now) db.purchases in
    record {
      period = period;
      purchases_count = length rows;
      stars_amount = amount_in xtr rows / 1000000;
      usdt_amount = amount_in usdt rows;
    }

pub record TopProduct : Type 0 where
  pub product_id : Uuid
  pub slug : String
  pub title : String
  pub purchases_count : ℕ
  pub stars_amount : ℕ
  pub usdt_amount : Decimal

abbrev pub of_product : Uuid → Purchase → Bool
of_product id p = p.product_id == id

-- the group of one product; GROUP BY makes none where no row is left
abbrev pub group_of : Product → List Purchase → TopProduct
group_of product rows = record {
  product_id = product.id;
  slug = product.slug;
  title = product.title;
  purchases_count = length rows;
  stars_amount = amount_in xtr rows / 1000000;
  usdt_amount = amount_in usdt rows;
}

abbrev pub with_group : Product → List Purchase → List TopProduct → List TopProduct
with_group product [] rest = rest
with_group product (p ∷ ps) rest = group_of product (p ∷ ps) ∷ rest

unfoldable pub groups : List Product → List Purchase → List TopProduct
groups [] rows = []
groups (product ∷ ps) rows =
    with_group product (select (of_product product.id) rows) (groups ps rows)

-- How the database orders texts.
module _ (text_le : String → String → Bool) where
  -- ORDER BY purchases_count DESC, title ASC
  abbrev pub ranks : TopProduct → TopProduct → Bool
  ranks a b =
      ltb b.purchases_count a.purchases_count
      || (a.purchases_count == b.purchases_count && text_le a.title b.title)

  unfoldable pub insert_rank : TopProduct → List TopProduct → List TopProduct
  insert_rank a [] = a ∷ []
  insert_rank a (b ∷ bs) = let rest = insert_rank a bs in if ranks a b then a ∷ b ∷ bs else b ∷ rest

  unfoldable pub ranked : List TopProduct → List TopProduct
  ranked [] = []
  ranked (a ∷ as') = insert_rank a (ranked as')

  unfoldable pub top_products : StatsPeriod → ℕ → DateTime → Db → List TopProduct
  top_products period limit now db =
      take limit (ranked (groups db.products (select (in_window period now) db.purchases)))

-- ORDER BY paid_at DESC NULLS LAST, created_at DESC
abbrev pub paid_later : Purchase → Purchase → Bool
paid_later p q = elim p.paid_at [
  | none ↦ elim q.paid_at [ none ↦ ltb q.created_at p.created_at | some u ↦ false ]
  | some t ↦ elim q.paid_at [
    | none ↦ true
    | some u ↦ ltb u t || (t == u && ltb q.created_at p.created_at)
  ]
]

unfoldable pub insert_paid : Purchase → List Purchase → List Purchase
insert_paid p [] = p ∷ []
insert_paid p (q ∷ qs) =
    let rest = insert_paid p qs in if paid_later q p then q ∷ rest else p ∷ q ∷ qs

unfoldable pub last_paid_first : List Purchase → List Purchase
last_paid_first [] = []
last_paid_first (p ∷ ps) = insert_paid p (last_paid_first ps)

unfoldable pub recent_purchases : ℕ → Db → List PurchaseRecord
recent_purchases limit db = take limit (joined db (last_paid_first (select grants db.purchases)))

pub record StatsOverview : Type 0 where
  pub today : RevenueSummary
  pub week : RevenueSummary
  pub month : RevenueSummary
  pub total : RevenueSummary
  pub top_products : List TopProduct
  pub recent_purchases : List PurchaseRecord
  pub products_total : ℕ
  pub products_active : ℕ
  pub users_total : ℕ

-- `now or datetime.now(UTC)`, where `clock` has the readings of the clock in their order
abbrev pub moment : Option DateTime → (ℕ → DateTime) → ℕ → DateTime
moment now clock reading = or_else now (clock reading)

-- `StatsService.overview`, on tables that do not change meanwhile
unfoldable pub overview :
    (String → String → Bool) → Option DateTime → (ℕ → DateTime) → ℕ → ℕ → Db → StatsOverview
overview text_le now clock top_limit recent_limit db = record {
  today = revenue StatsPeriod.today (moment now clock 0) db;
  week = revenue StatsPeriod.week (moment now clock 1) db;
  month = revenue StatsPeriod.month (moment now clock 2) db;
  total = revenue StatsPeriod.all (moment now clock 3) db;
  top_products = top_products text_le StatsPeriod.month top_limit (moment now clock 4) db;
  recent_purchases = recent_purchases recent_limit db;
  products_total = count_products none db;
  products_active = count_products (some true) db;
  users_total = length db.users;
}
