-- ===== src/Dashboard/Groups.antt =====
-- The list of the best sellers accounts for every sale of the month.
use tg_bot.Base.{
  ℕ, zero, suc, ◌+◌, ◌≤◌, ◌≡◌, refl, ap, ◌∙◌, String, Bool, true, false, is_some, List, [], ◌∷◌,
  length, take, select, find, All, All-map, All-select, ◌==◌, arith, inl, inr, Bool-cases,
}
use tg_bot.Domain.{Uuid, DateTime, Product, Purchase}
use tg_bot.World.{Db, is_product}
use tg_bot.Sound.Rows.{IsSound, IsPurchaseRow, ProductsApart, AreProductsApart}
use tg_bot.Dashboard.Periods.{StatsPeriod}
use tg_bot.Dashboard.Sums.{
  in_window, revenue, TopProduct, of_product, with_group, groups, ranks, insert_rank, ranked,
  top_products,
}

-- the sales of all groups together
abbrev pub sales : List TopProduct → ℕ
sales [] = 0
sales (a ∷ as') = a.purchases_count + sales as'

abbrev is_known : List Product → Purchase → Bool
is_known products p = is_some (find (is_product p.product_id) products)

with_group-sales :
    (product : Product) (rows : List Purchase) (rest : List TopProduct)
    → sales (with_group product rows rest) ≡ length rows + sales rest
with_group-sales product [] rest = omega arith
with_group-sales product (p ∷ ps) rest = refl

-- A purchase of a product is of no other.
other_unknown :
    (product : Product) (id : Uuid) (ps : List Product)
    → All (ProductsApart product) ps
    → (product.id == id) ≡ true
    → is_some (find (is_product id) ps) ≡ false
other_unknown product id [] h e = refl
other_unknown product id (q ∷ ps) h e =
    let diff = h.0.ids in ground (arith, other_unknown product id ps h.1 e)

-- Sales of one product and sales of the others, together.
sales_apart :
    (product : Product) (ps : List Product) (rows : List Purchase)
    → All (ProductsApart product) ps
    → length (select (of_product product.id) rows) + length (select (is_known ps) rows)
      ≡ length (select (is_known (product ∷ ps)) rows)
sales_apart product ps [] h = omega arith
sales_apart product ps (p ∷ rows) h = elim (Bool-cases (product.id == p.product_id)) [
  | inl own ↦
      let gone = other_unknown product p.product_id ps h own in
      ground (arith, sales_apart product ps rows h)
  | inr other ↦ ground (arith, sales_apart product ps rows h)
]

groups-sales :
    (products : List Product) (rows : List Purchase)
    → AreProductsApart products
    → sales (groups products rows) ≡ length (select (is_known products) rows)
unfolding groups
groups-sales [] rows h = none_known rows
  where
    none_known : (rows : List Purchase) → 0 ≡ length (select (is_known []) rows)
    none_known [] = refl
    none_known (p ∷ rows) = none_known rows
groups-sales (product ∷ ps) rows h =
    with_group-sales product (select (of_product product.id) rows) (groups ps rows)
    ∙ rw (groups-sales ps rows h.1) (sales_apart product ps rows h.0)

known_rows :
    (db : Db) (rows : List Purchase)
    → All (IsPurchaseRow db.products db.users) rows
    → length (select (is_known db.products) rows) ≡ length rows
known_rows db [] h = refl
known_rows db (p ∷ rows) h = let known = h.0.product in rw known (ap suc (known_rows db rows h.1))

-- The best sellers first.
abbrev pub Descending : List TopProduct → Type 0
Descending [] = Unit
Descending (a ∷ as') = All (λ b. b.purchases_count ≤ a.purchases_count) as' × Descending as'

length-with_group :
    (product : Product) (rows : List Purchase) (rest : List TopProduct)
    → length (with_group product rows rest) ≤ suc (length rest)
length-with_group product [] rest = omega arith
length-with_group product (p ∷ ps) rest = omega arith

length-groups :
    (products : List Product) (rows : List Purchase)
    → length (groups products rows) ≤ length products
unfolding groups
length-groups [] rows = omega arith
length-groups (product ∷ ps) rows = omega (
  arith,
  length-groups ps rows,
  length-with_group product (select (of_product product.id) rows) (groups ps rows),
)

take_all : (n : ℕ) (xs : List TopProduct) → length xs ≤ n → take n xs ≡ xs
take_all zero [] h = refl
take_all zero (x ∷ xs) h = absurd (omega arith)
take_all (suc n) [] h = refl
take_all (suc n) (x ∷ xs) h = ap (λ (t : List TopProduct). x ∷ t) (take_all n xs (omega arith))

length-take_le : (n : ℕ) (xs : List TopProduct) → length (take n xs) ≤ n
length-take_le zero xs = omega arith
length-take_le (suc n) [] = omega arith
length-take_le (suc n) (x ∷ xs) = omega (arith, length-take_le n xs)

All-take : (P : TopProduct → Type 0) (n : ℕ) (xs : List TopProduct) → All P xs → All P (take n xs)
All-take P zero xs h = tt
All-take P (suc n) [] h = tt
All-take P (suc n) (x ∷ xs) h = (h.0, All-take P n xs h.1)

Descending-take : (n : ℕ) (xs : List TopProduct) → Descending xs → Descending (take n xs)
Descending-take zero xs h = tt
Descending-take (suc n) [] h = tt
Descending-take (suc n) (x ∷ xs) h =
    (All-take (λ b. b.purchases_count ≤ x.purchases_count) n xs h.0, Descending-take n xs h.1)

module _ (text_le : String → String → Bool) where
  sales-insert_rank :
      (a : TopProduct) (bs : List TopProduct)
      → (sales (insert_rank text_le a bs) ≡ a.purchases_count + sales bs)
        × (length (insert_rank text_le a bs) ≡ suc (length bs))
  unfolding insert_rank
  sales-insert_rank a [] = (omega arith, refl)
  sales-insert_rank a (b ∷ bs) = elim (Bool-cases (ranks text_le a b)) [
    | inl first ↦ rw first (refl, refl)
    | inr later ↦
        rw later (omega (arith, sales-insert_rank a bs), omega (arith, sales-insert_rank a bs))
  ]

  sales-ranked :
      (as' : List TopProduct)
      → (sales (ranked text_le as') ≡ sales as') × (length (ranked text_le as') ≡ length as')
  unfolding ranked
  sales-ranked [] = (refl, refl)
  sales-ranked (a ∷ as') =
      let (s, l) = sales-insert_rank a (ranked text_le as') in
      let (s', l') = sales-ranked as' in (omega arith, omega arith)

  All-insert_rank :
      (P : TopProduct → Type 0) (a : TopProduct) (bs : List TopProduct)
      → P a
      → All P bs
      → All P (insert_rank text_le a bs)
  unfolding insert_rank
  All-insert_rank P a [] h k = (h, tt)
  All-insert_rank P a (b ∷ bs) h k = elim (Bool-cases (ranks text_le a b)) [
    | inl first ↦ rw first (h, (k.0, k.1))
    | inr later ↦ rw later (k.0, All-insert_rank P a bs h k.1)
  ]

  Descending-insert_rank :
      (a : TopProduct) (bs : List TopProduct)
      → Descending bs
      → Descending (insert_rank text_le a bs)
  unfolding insert_rank
  Descending-insert_rank a [] h = (tt, tt)
  Descending-insert_rank a (b ∷ bs) h = elim (Bool-cases (ranks text_le a b)) [
    | inl first ↦
        let le : b.purchases_count ≤ a.purchases_count = ground arith in
        rw first (
          (le, All-map _ _ (λ c (k : c.purchases_count ≤ b.purchases_count). omega arith) bs h.0),
          (h.0, h.1),
        )
    | inr later ↦
        let le : a.purchases_count ≤ b.purchases_count = ground arith in
        rw later (
          All-insert_rank (λ c. c.purchases_count ≤ b.purchases_count) a bs le h.0,
          Descending-insert_rank a bs h.1,
        )
  ]

  Descending-ranked : (as' : List TopProduct) → Descending (ranked text_le as')
  unfolding ranked
  Descending-ranked [] = tt
  Descending-ranked (a ∷ as') =
      Descending-insert_rank a (ranked text_le as') (Descending-ranked as')

  -- On sound tables the list of the best sellers of a period never has more entries than the limit, is
  -- in descending order of the number of purchases, and, where the limit is the number of products or
  -- more, accounts for every purchase that the revenue of the period counts: the numbers add up.
  pub top_products-sales :
      (period : StatsPeriod) (limit more : ℕ) (now : DateTime) (db : Db)
      → IsSound db
      → (length (top_products text_le period limit now db) ≤ limit)
        × Descending (top_products text_le period limit now db)
        × (sales (top_products text_le period (length db.products + more) now db)
            ≡ (revenue period now db).purchases_count)
  unfolding top_products revenue
  top_products-sales period limit more now db s =
      let rows = select (in_window period now) db.purchases in
      let (same, size) = sales-ranked (groups db.products rows) in
      let few = length-groups db.products rows in
      let rows_fit =
        All-select (IsPurchaseRow db.products db.users) (in_window period now) db.purchases
          s.purchases in
      (
        length-take_le limit (ranked text_le (groups db.products rows)),
        Descending-take limit (ranked text_le (groups db.products rows))
            (Descending-ranked (groups db.products rows)),
        rw
            (take_all (length db.products + more) (ranked text_le (groups db.products rows))
              (omega arith))
            (same ∙ groups-sales db.products rows s.products_apart ∙ known_rows db rows rows_fit),
      )
