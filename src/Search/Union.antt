-- ===== src/Search/Union.antt =====
-- The UNION of indexed lookups finds what the disjunction over the joined tables would find, and the
-- count that is taken without the joins is the number of joined rows.
use tg_bot.Base.{
  ℕ, ◌≡◌, refl, ap, String, Bool, ◌&&◌, ◌||◌, Option, some, List, ◌++◌, length, select, find, All,
  All-map, All-select, if◌then◌else◌, inl, inr, Bool-cases,
}
use tg_bot.Domain.{Uuid, Purchase, PurchaseRecord, PurchaseStatus}
use tg_bot.Domain.Slug.{codes}
use tg_bot.World.{Db, Result, ok, err, then_on, has_id}
use tg_bot.Repository.PurchaseTable.{truthy}
use tg_bot.Sound.Rows.{IsSound, IsPurchaseRow, AreApart}
use tg_bot.Search.Pages.{PageRequest, PurchaseFilters, slice}
use tg_bot.Search.Purchases.{
  Texts, search_term, has, passes_statuses, newest_first, joined, by_invoice, by_charge, by_buyer,
  by_product, by_telegram_id, telegram_id, ids_where, matching_ids, or_empty, conditions, search,
}
use tg_bot.Search.Rows.{
  has-append, has-ids_where, own_rows, select_agree, length-newest_first, All-newest_first,
  length-joined,
}

module _ (texts : Texts) (db : Db) where
  -- The search as one disjunction over the purchase and the rows joined to it.
  abbrev pub matches_row : String → Option ℕ → Purchase → Bool
  matches_row term id p =
      by_invoice texts term p
      || (by_charge texts term p
          || (by_buyer texts db term p || (by_product texts db term p || by_telegram_id id p)))

  abbrev pub direct_conditions : PurchaseFilters → Result (Purchase → Bool)
  direct_conditions filters =
      if truthy filters.search
      then then_on (telegram_id texts (codes (search_term (or_empty filters.search)))) (λ id.
        ok (λ p.
          passes_statuses filters.statuses p
          && matches_row (search_term (or_empty filters.search)) id p))
      else ok (passes_statuses filters.statuses)

  -- every matching purchase with its buyer and its product, the newest first
  abbrev pub found : (Purchase → Bool) → List PurchaseRecord
  found test = joined db (newest_first (select test db.purchases))

  abbrev union : String → Option ℕ → List Uuid
  union term id =
      ids_where (by_invoice texts term) db.purchases
      ++ (ids_where (by_charge texts term) db.purchases
          ++ (ids_where (by_buyer texts db term) db.purchases
              ++ (ids_where (by_product texts db term) db.purchases
                  ++ ids_where (by_telegram_id id) db.purchases)))

  has-union :
      (term : String) (id : Option ℕ) (p : Purchase)
      → AreApart db.purchases
      → find (has_id p.id) db.purchases ≡ some p
      → has p.id (union term id) ≡ matches_row term id p
  has-union term id p apart e = simp (has-append) (
      rw (
        has-ids_where (by_invoice texts term) p.id db.purchases apart,
        has-ids_where (by_charge texts term) p.id db.purchases apart,
        has-ids_where (by_buyer texts db term) p.id db.purchases apart,
        has-ids_where (by_product texts db term) p.id db.purchases apart,
        has-ids_where (by_telegram_id id) p.id db.purchases apart,
        e,
      ))

  term_agrees :
      (statuses : List PurchaseStatus) (term : String) (id : Option ℕ)
      → IsSound db
      → All
          (λ p.
            (passes_statuses statuses p && has p.id (union term id))
            ≡ (passes_statuses statuses p && matches_row term id p))
          db.purchases
  term_agrees statuses term id s =
      All-map (λ p. find (has_id p.id) db.purchases ≡ some p) _
        (λ p e. ap (λ (b : Bool). passes_statuses statuses p && b) (has-union term id p s.apart e))
        db.purchases (own_rows db.purchases s.apart)

  -- One page of the search where the tests agree on every stored row.
  page_agrees :
      (page : PageRequest) (f g : Purchase → Bool)
      → IsSound db
      → All (λ p. f p ≡ g p) db.purchases
      → slice page
          (length (select f db.purchases))
          (joined db (newest_first (select f db.purchases)))
        ≡ slice page (length (found g)) (found g)
  page_agrees page f g s same =
      let rows =
        All-newest_first (IsPurchaseRow db.products db.users) (select g db.purchases)
          (All-select (IsPurchaseRow db.products db.users) g db.purchases s.purchases) in
      rw (
        select_agree f g db.purchases same,
        length-joined db (newest_first (select g db.purchases)) rows,
        length-newest_first (select g db.purchases),
      )

  -- On sound tables the search of purchases, with its UNION of lookups and its count without joins,
  -- returns, or raises, what one disjunction over the joined tables would: the page, in order from the newest to
  -- the oldest, of the records whose status is among the wanted ones, if any are named, and of which, if a term is
  -- given, the invoice, the charge, the buyer's name, the product's title or slug contains the term, or whose buyer has
  -- the term as Telegram id; and the total of the page is the number of all such records.
  pub search-direct :
      (filters : PurchaseFilters) (page : PageRequest)
      → IsSound db
      → search texts db filters page
        ≡ then_on
            (direct_conditions filters)
            (λ test. ok (slice page (length (found test)) (found test)))
  unfolding search conditions matching_ids
  search-direct filters page s = elim (Bool-cases (truthy filters.search)) [
    | inr absent ↦ rw absent (
        ap ok (
          page_agrees page (passes_statuses filters.statuses) (passes_statuses filters.statuses) s
            (All-map _ _ (λ p e. refl) db.purchases (own_rows db.purchases s.apart))))
    | inl given ↦
        rw given (on_term (telegram_id texts (codes (search_term (or_empty filters.search)))))
  ]
    where
      on_term :
          (r : Result (Option ℕ))
          → then_on
              (then_on
                (then_on r (λ id. ok (union (search_term (or_empty filters.search)) id)))
                (λ ids. ok (λ (p : Purchase). passes_statuses filters.statuses p && has p.id ids)))
              (λ test. ok (
                slice page
                  (length (select test db.purchases))
                  (joined db (newest_first (select test db.purchases)))))
            ≡ then_on
                (then_on r (λ id. ok (λ (p : Purchase).
                  passes_statuses filters.statuses p
                  && matches_row (search_term (or_empty filters.search)) id p)))
                (λ test. ok (slice page (length (found test)) (found test)))
      on_term (err e) = refl
      on_term (ok id) = ap ok (
          page_agrees page
            (λ p.
              passes_statuses filters.statuses p
              && has p.id (union (search_term (or_empty filters.search)) id))
            (λ p.
              passes_statuses filters.statuses p
              && matches_row (search_term (or_empty filters.search)) id p)
            s (term_agrees filters.statuses (search_term (or_empty filters.search)) id s))
