-- ===== src/Search/Pages.antt =====
-- backend/app/domain/pagination.py: slices of a result, and what a client sees that walks through them.
use tg_bot.Base.{
  ℕ, zero, suc, ◌+◌, ◌-◌, ◌≤◌, ◌<◌, ◌≡◌, ◌↔◌, refl, sym, ap, ◌∙◌, String, Bool, true, ◌&&◌, Option,
  List, [], ◌∷◌, ◌++◌, length, length-drop, length-take, take, drop, ltb, leb, if◌then◌else◌, arith,
  inl, inr, Bool-cases,
}
use tg_bot.Domain.{PurchaseStatus}
use Prim.Native.Nat.{min}

abbrev pub max_page_size : ℕ
max_page_size = 100

pub record PageRequest : Type 0 where
  pub limit : ℕ
  pub offset : ℕ

-- `PageRequest.__post_init__` lets the request through; an offset is no negative number here
abbrev pub is_page_request : PageRequest → Bool
is_page_request r = leb 1 r.limit && leb r.limit max_page_size

pub record Page (A : Type 0) : Type 0 where
  pub items : List A
  pub total : ℕ
  pub limit : ℕ
  pub offset : ℕ

pub record ProductFilters : Type 0 where
  pub search : Option String
  pub is_active : Option Bool

pub record PurchaseFilters : Type 0 where
  pub search : Option String
  pub statuses : List PurchaseStatus

module _ {A : Type 0} where
  -- `Page.has_more`
  unfoldable pub has_more : Page A → Bool
  has_more p = ltb (p.offset + length p.items) p.total

  -- `OFFSET` and `LIMIT` of a query whose rows are these
  unfoldable pub slice : PageRequest → ℕ → List A → Page A
  slice r total rows = record {
    items = take r.limit (drop r.offset rows);
    total = total;
    limit = r.limit;
    offset = r.offset;
  }

  -- A client that asks for one page after another, from an offset on, while there are more.
  abbrev pub walk : ℕ → ℕ → ℕ → List A → List A
  walk zero limit offset rows = []
  walk (suc fuel) limit offset rows =
      let page = slice (record { limit = limit; offset = offset }) (length rows) rows in
      let rest = walk fuel limit (offset + limit) rows in
      page.items ++ (if has_more page then rest else [])

  take-append-drop : (n : ℕ) (xs : List A) → take n xs ++ drop n xs ≡ xs
  take-append-drop zero xs = refl
  take-append-drop (suc n) [] = refl
  take-append-drop (suc n) (x ∷ xs) = ap (λ (t : List A). x ∷ t) (take-append-drop n xs)

  drop_nil : (n : ℕ) → drop {A = A} n [] ≡ []
  drop_nil zero = refl
  drop_nil (suc n) = refl

  drop-drop : (n m : ℕ) (xs : List A) → drop m (drop n xs) ≡ drop (n + m) xs
  drop-drop zero m xs = let same : 0 + m ≡ m = omega arith in rw same
  drop-drop (suc n) m [] = rw (drop_nil m, drop_nil (suc n + m))
  drop-drop (suc n) m (x ∷ xs) =
      let same : suc n + m ≡ suc (n + m) = omega arith in rw same (drop-drop n m xs)

  drop_all : (n : ℕ) (xs : List A) → length xs ≤ n → drop n xs ≡ []
  drop_all zero [] h = refl
  drop_all zero (x ∷ xs) h = absurd (omega arith)
  drop_all (suc n) [] h = refl
  drop_all (suc n) (x ∷ xs) h = drop_all n xs (omega arith)

  -- Whether there is more behind a slice of rows that are all counted.
  more_behind :
      (limit offset : ℕ) (rows : List A)
      → has_more (slice (record { limit = limit; offset = offset }) (length rows) rows)
        ≡ ltb (offset + limit) (length rows)
  unfolding has_more slice
  more_behind limit offset rows =
      rw (length-take limit (drop offset rows), length-drop offset rows)
        (last_slice limit offset (length rows))
    where
      last_slice :
          (limit offset n : ℕ) → ltb (offset + min limit (n - offset)) n ≡ ltb (offset + limit) n
      last_slice limit offset n = ground arith

  walk-drop :
      (fuel limit offset : ℕ) (rows : List A)
      → 1 ≤ limit
      → length rows < offset + fuel
      → walk fuel limit offset rows ≡ drop offset rows
  unfolding slice
  walk-drop zero limit offset rows le lt = sym (drop_all offset rows (omega arith))
  walk-drop (suc fuel) limit offset rows le lt =
      elim (Bool-cases (ltb (offset + limit) (length rows))) [
        | inl more ↦
            rw
              (
                more_behind limit offset rows,
                more,
                walk-drop fuel limit (offset + limit) rows le (omega arith),
                ← drop-drop offset limit rows,
              )
              (take-append-drop limit (drop offset rows))
        | inr last ↦
            let short : length rows ≤ offset + limit = ground arith in
            let none_left = drop-drop offset limit rows ∙ drop_all (offset + limit) rows short in
            rw (more_behind limit offset rows, last)
              (rw none_left at (take-append-drop limit (drop offset rows)))
      ]

  -- With a limit of at least one: a client that asks for pages from the first one on for as long as
  -- `has_more` says so, gets all the rows, each once and in their order, after at most one page more than
  -- there are rows; no page has more items than the limit; and `has_more` of the page at an offset
  -- is true exactly when some row stands behind it.
  pub walk_all :
      (limit : ℕ) (rows : List A)
      → 1 ≤ limit
      → (walk (suc (length rows)) limit 0 rows ≡ rows)
        × ((offset : ℕ)
            → (length (slice (record { limit = limit; offset = offset }) (length rows) rows).items
                ≤ limit)
              × ((has_more (slice (record { limit = limit; offset = offset }) (length rows) rows)
                    ≡ true)
                  ↔ (0 < length (drop (offset + limit) rows))))
  unfolding slice
  walk_all limit rows le = (
    walk-drop (suc (length rows)) limit 0 rows le (omega arith),
    λ offset. (
      omega (arith, length-take limit (drop offset rows)),
      rw (more_behind limit offset rows, length-drop (offset + limit) rows)
          ((λ h. ground arith), (λ h. ground arith)),
    ),
  )
