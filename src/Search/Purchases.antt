-- ===== src/Search/Purchases.antt =====
-- The search of backend/app/infrastructure/db/repositories/purchases.py, and the listing of
-- backend/app/infrastructure/db/repositories/products.py.
use Prim.Native.Char.{code}
use tg_bot.Base.{
  ℕ, ◌^◌, String, Bool, true, false, not, ◌&&◌, ◌||◌, Option, none, some, List, [], ◌∷◌, ◌++◌, map,
  length, select, find, all_of, ltb, ◌==◌, if◌then◌else◌,
}
use tg_bot.Errors.{value_error}
use tg_bot.Domain.{
  Uuid, Purchase, Product, User, PurchaseRecord, PurchaseStatus, pending, paid, delivered, refunded,
  expired,
}
use tg_bot.Domain.Slug.{codes}
use tg_bot.World.{Db, Result, ok, err, then_on, is_user, is_product}
use tg_bot.Repository.PurchaseTable.{truthy}
use tg_bot.Texts.Strip.{strip}
use tg_bot.Search.Like.{like_pattern, ilike}
use tg_bot.Search.Pages.{PageRequest, Page, PurchaseFilters, slice}

-- How the database compares letters, and Python's `str.isdigit` of a character and `int` of a text.
pub record Texts : Type 0 where
  pub alike : ℕ → ℕ → Bool
  pub is_digit : ℕ → Bool
  pub to_int : List ℕ → Option ℕ

-- `lstrip("@")`
abbrev pub lstrip_at : String → String
lstrip_at String.[] = String.[]
lstrip_at (String.◌∷◌ c s) = if code c == b'@' then lstrip_at s else String.◌∷◌ c s

abbrev pub search_term : String → String
search_term search = lstrip_at (strip search)

abbrev pub has : ℕ → List ℕ → Bool
has x [] = false
has x (y ∷ ys) = x == y || has x ys

abbrev pub same_status : PurchaseStatus → PurchaseStatus → Bool
same_status pending pending = true
same_status paid paid = true
same_status delivered delivered = true
same_status refunded refunded = true
same_status expired expired = true
same_status _ _ = false

-- `status IN (...)`
abbrev pub has_status : PurchaseStatus → List PurchaseStatus → Bool
has_status s [] = false
has_status s (t ∷ ts) = same_status s t || has_status s ts

abbrev pub is_empty_list : List ℕ → Bool
is_empty_list [] = true
is_empty_list _ = false

-- ORDER BY created_at DESC, id DESC
abbrev pub newer : Purchase → Purchase → Bool
newer p q = ltb q.created_at p.created_at || (p.created_at == q.created_at && ltb q.id p.id)

unfoldable pub insert_newest : Purchase → List Purchase → List Purchase
insert_newest p [] = p ∷ []
insert_newest p (q ∷ qs) =
    let rest = insert_newest p qs in if newer q p then q ∷ rest else p ∷ q ∷ qs

unfoldable pub newest_first : List Purchase → List Purchase
newest_first [] = []
newest_first (p ∷ ps) = insert_newest p (newest_first ps)

-- The inner joins of a purchase with its buyer and its product, each on a primary key, and `to_record`.
abbrev pub to_record :
    Purchase → Option User → Option Product → List PurchaseRecord → List PurchaseRecord
to_record p (some user) (some product) rest =
    record { purchase = p; user = user; product = product } ∷ rest
to_record p _ _ rest = rest

unfoldable pub joined : Db → List Purchase → List PurchaseRecord
joined db [] = []
joined db (p ∷ ps) =
    to_record p (find (is_user p.user_id) db.users) (find (is_product p.product_id) db.products)
      (joined db ps)

abbrev pub by_telegram_id : Option ℕ → Purchase → Bool
by_telegram_id none p = false
by_telegram_id (some id) p = p.user_id == id

-- `int(term)`, which may raise, as a parameter of a BIGINT, which the driver checks
abbrev pub as_bigint : Option ℕ → Result (Option ℕ)
as_bigint none = err value_error
as_bigint (some n) = if ltb n (2 ^ 63) then ok (some n) else err value_error

-- the ids of the purchases that pass a test
abbrev pub ids_where : (Purchase → Bool) → List Purchase → List Uuid
ids_where test ps = map (λ p. p.id) (select test ps)

abbrev pub passes_statuses : List PurchaseStatus → Purchase → Bool
passes_statuses [] p = true
passes_statuses (s ∷ ss) p = has_status p.status (s ∷ ss)

abbrev pub or_empty : Option String → String
or_empty none = ""
or_empty (some s) = s

module _ (texts : Texts) where
  -- `column.ilike(like_pattern(term), escape=LIKE_ESCAPE)`
  abbrev pub contains : String → String → Bool
  contains term text = ilike texts.alike (like_pattern (codes term)) (codes text)

  -- a column that is NULL passes no test
  abbrev pub contained : String → Option String → Bool
  contained term none = false
  contained term (some text) = contains term text

  abbrev pub has_username : String → Option User → Bool
  has_username term none = false
  has_username term (some user) = contained term user.username

  abbrev pub has_title_or_slug : String → Option Product → Bool
  has_title_or_slug term none = false
  has_title_or_slug term (some product) = contains term product.title || contains term product.slug

  abbrev pub by_invoice : String → Purchase → Bool
  by_invoice term p = contains term p.external_id

  abbrev pub by_charge : String → Purchase → Bool
  by_charge term p = contained term p.telegram_charge_id

  abbrev pub by_buyer : Db → String → Purchase → Bool
  by_buyer db term p = has_username term (find (is_user p.user_id) db.users)

  abbrev pub by_product : Db → String → Purchase → Bool
  by_product db term p = has_title_or_slug term (find (is_product p.product_id) db.products)

  -- `if term.isdigit()`
  abbrev pub telegram_id : List ℕ → Result (Option ℕ)
  telegram_id term =
      if not (is_empty_list term) && all_of texts.is_digit term
      then as_bigint (texts.to_int term)
      else ok none

  -- `_matching_ids`; `IN` does not see the repetitions that UNION removes
  unfoldable pub matching_ids : Db → String → Result (List Uuid)
  matching_ids db term = then_on (telegram_id (codes term)) λ id. ok (
      ids_where (by_invoice term) db.purchases
      ++ (ids_where (by_charge term) db.purchases
          ++ (ids_where (by_buyer db term) db.purchases
              ++ (ids_where (by_product db term) db.purchases
                  ++ ids_where (by_telegram_id id) db.purchases))))

  -- `_conditions`
  unfoldable pub conditions : Db → PurchaseFilters → Result (Purchase → Bool)
  conditions db filters =
      if truthy filters.search
      then then_on (matching_ids db (search_term (or_empty filters.search)))
          (λ ids. ok (λ p. passes_statuses filters.statuses p && has p.id ids))
      else ok (passes_statuses filters.statuses)

  unfoldable pub search : Db → PurchaseFilters → PageRequest → Result (Page PurchaseRecord)
  search db filters page = then_on (conditions db filters) λ test.
      let rows = select test db.purchases in
      ok (slice page (length rows) (joined db (newest_first rows)))
