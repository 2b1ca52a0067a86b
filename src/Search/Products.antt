-- ===== src/Search/Products.antt =====
-- `list_products` and `count` of backend/app/infrastructure/db/repositories/products.py.
use tg_bot.Base.{
  ℕ, suc, ◌≡◌, ◌⊎◌, inl, inr, String, Bool, true, false, not, ◌&&◌, ◌||◌, Option, none, some, List,
  [], ◌∷◌, length, select, take, drop, All, All-map, Bool-cases, ltb, ◌==◌, if◌then◌else◌, arith,
  zero,
}
use tg_bot.Domain.{Product}
use tg_bot.Domain.Slug.{codes}
use tg_bot.World.{Db}
use tg_bot.Repository.PurchaseTable.{truthy}
use tg_bot.Search.Like.{like_pattern, ilike}
use tg_bot.Search.Patterns.{Occurs, ilike-like_pattern}
use tg_bot.Search.Pages.{PageRequest, Page, ProductFilters, slice}
use tg_bot.Search.Purchases.{or_empty}

abbrev pub same_flag : Bool → Bool → Bool
same_flag true b = b
same_flag false b = not b

abbrev pub has_flag : Option Bool → Product → Bool
has_flag none p = true
has_flag (some active) p = same_flag active p.is_active

-- ORDER BY created_at DESC, id DESC
abbrev pub newer_product : Product → Product → Bool
newer_product p q = ltb q.created_at p.created_at || (p.created_at == q.created_at && ltb q.id p.id)

unfoldable pub insert_newest_product : Product → List Product → List Product
insert_newest_product p [] = p ∷ []
insert_newest_product p (q ∷ qs) =
    let rest = insert_newest_product p qs in if newer_product q p then q ∷ rest else p ∷ q ∷ qs

unfoldable pub newest_products : List Product → List Product
newest_products [] = []
newest_products (p ∷ ps) = insert_newest_product p (newest_products ps)

-- `count`
unfoldable pub count_products : Option Bool → Db → ℕ
count_products only_active db = length (select (has_flag only_active) db.products)

module _ (alike : ℕ → ℕ → Bool) where
  abbrev pub has_term : String → Product → Bool
  has_term term p =
      ilike alike (like_pattern (codes term)) (codes p.title)
      || (ilike alike (like_pattern (codes term)) (codes p.slug)
          || ilike alike (like_pattern (codes term)) (codes p.description))

  -- `_conditions`
  unfoldable pub product_conditions : ProductFilters → Product → Bool
  product_conditions filters p =
      (if truthy filters.search then has_term (or_empty filters.search) p else true)
      && has_flag filters.is_active p

  unfoldable pub list_products : Db → ProductFilters → PageRequest → Page Product
  list_products db filters page =
      let rows = select (product_conditions filters) db.products in
      slice page (length rows) (newest_products rows)

  -- The term stands in the title, the slug or the description.
  abbrev pub Mentions : String → Product → Type 0
  Mentions term p =
      Occurs alike (codes term) (codes p.title)
      ⊎ (Occurs alike (codes term) (codes p.slug) ⊎ Occurs alike (codes term) (codes p.description))

  has_term-Mentions : (term : String) (p : Product) → has_term term p ≡ true → Mentions term p
  has_term-Mentions term p h =
      let in_text = λ (text : String). (ilike-like_pattern alike (codes term) (codes text)).0 in
      elim (Bool-cases (ilike alike (like_pattern (codes term)) (codes p.title))) [
        | inl title ↦ inl (in_text p.title title)
        | inr other ↦ elim (Bool-cases (ilike alike (like_pattern (codes term)) (codes p.slug))) [
          | inl slug ↦ inr (inl (in_text p.slug slug))
          | inr rest ↦ inr (inr (in_text p.description (rw (other, rest) at h)))
        ]
      ]

All-insert_newest_product :
    (P : Product → Type 0) (p : Product) (ps : List Product)
    → P p
    → All P ps
    → All P (insert_newest_product p ps)
unfolding insert_newest_product
All-insert_newest_product P p [] h k = (h, tt)
All-insert_newest_product P p (q ∷ qs) h k = elim (Bool-cases (newer_product q p)) [
  | inl first ↦ rw first (k.0, All-insert_newest_product P p qs h k.1)
  | inr last ↦ rw last (h, (k.0, k.1))
]

All-newest_products :
    (P : Product → Type 0) (ps : List Product) → All P ps → All P (newest_products ps)
unfolding newest_products
All-newest_products P [] h = tt
All-newest_products P (p ∷ ps) h =
    All-insert_newest_product P p (newest_products ps) h.0 (All-newest_products P ps h.1)

module _ (P : Product → Type 0) where
  All-take : (n : ℕ) (ps : List Product) → All P ps → All P (take n ps)
  All-take zero ps h = tt
  All-take (suc n) [] h = tt
  All-take (suc n) (p ∷ ps) h = (h.0, All-take n ps h.1)

  All-drop : (n : ℕ) (ps : List Product) → All P ps → All P (drop n ps)
  All-drop zero ps h = h
  All-drop (suc n) [] h = tt
  All-drop (suc n) (p ∷ ps) h = All-drop n ps h.1

-- what passes a test, and that it does
select-passes : (t : Product → Bool) (ps : List Product) → All (λ p. t p ≡ true) (select t ps)
select-passes t [] = tt
select-passes t (p ∷ ps) = elim (Bool-cases (t p)) [
  | inl hit ↦ rw hit (hit, select-passes t ps)
  | inr miss ↦ rw miss (select-passes t ps)
]

-- Every product on a page of the listing that asks for a term which is not empty has the term, taken
-- literally and up to the case of letters, in its title, its slug or its description, and is active or
-- inactive as the filter wants it, if it wants either.
pub list_products-Mentions :
    (alike : ℕ → ℕ → Bool) (db : Db) (term : String) (filters : ProductFilters) (page : PageRequest)
    → filters.search ≡ some term
    → truthy filters.search ≡ true
    → All
        (λ p. Mentions alike term p × (has_flag filters.is_active p ≡ true))
        (list_products alike db filters page).items
unfolding list_products product_conditions slice
list_products-Mentions alike db term filters page asked given =
    let test = product_conditions alike filters in
    let wanted = All-newest_products _ (select test db.products) (select-passes test db.products) in
    All-take _ page.limit (drop page.offset (newest_products (select test db.products))) (
      All-drop _ page.offset (newest_products (select test db.products)) (
        All-map _ _
          (λ p e.
            let e' = (rw (given, asked) at e) in
            (has_term-Mentions alike term p (ground arith), ground arith))
          (newest_products (select test db.products)) wanted))
