-- ===== src/Catalog/Changes.antt =====
-- How creating and changing a product ends, on sound tables.
use tg_bot.Base.{
  ◌+◌, ◌≡◌, refl, subst, Bool, true, false, not, ◌&&◌, ◌||◌, Option, none, some, is_some, find,
  all_of, All-find, arith, inl, inr, Bool-cases, Option-cases, ℕ, List, ◌∷◌, [], ◌==◌, String,
}
use tg_bot.Errors.{Error}
use tg_bot.Domain.{
  Uuid, Product, ProductDraft, ProductUpdate, Maybe, unset, given, patched, apply_changes, is_empty,
  draft_is_priced,
}
use tg_bot.World.{
  Db, Run, Env, Enforces, World, Result, ok, err, ◌>>=◌, ◌>>◌, pure, translating, close,
  unit_of_work, lift, is_product, positive_price,
}
use tg_bot.Repository.CatalogTable
use tg_bot.Repository.CatalogTable.{without, translate, numeric, written, columns, unchanged}
use tg_bot.Sound.Rows.{IsSound, IsProductRow}
use tg_bot.Services.ProductService.{left_unpriced, change, create, update}
use tg_bot.Catalog.Refusals.{
  Holds, IsForeseen, positive_change, IsSlug, IsGiven, IsReady, IsReadyDraft, prepare_changes-Holds,
  prepare_draft-Holds, blamed_slug,
}

-- the rows that are left beside an id
apart_without :
    (id : Uuid) (ps : List Product) → all_of (λ q. not (id == q.id)) (without id ps) ≡ true
apart_without id [] = refl
apart_without id (q ∷ ps) = ground (arith, apart_without id ps)

patched_price :
    (m : Maybe (Option ℕ)) (old : Option ℕ)
    → positive_change m ≡ true
    → positive_price old ≡ true
    → positive_price (patched m old) ≡ true
patched_price unset old h k = k
patched_price (given x) old h k = h

patched-IsSlug :
    (m : Maybe String) (old : String) → IsGiven IsSlug m → IsSlug old → IsSlug (patched m old)
patched-IsSlug unset old h k = k
patched-IsSlug (given x) old h k = h

-- An update that leaves a price keeps a product row a product row.
changed-IsProductRow :
    (u : ProductUpdate) (p : Product)
    → IsProductRow p
    → IsGiven IsSlug u.slug
    → positive_change u.price_stars ≡ true
    → positive_change u.price_usdt ≡ true
    → left_unpriced p u ≡ false
    → IsProductRow (apply_changes u p)
unfolding apply_changes left_unpriced
changed-IsProductRow u p r slug stars usdt priced = record {
  slug = patched-IsSlug u.slug p.slug slug r.slug;
  priced = ground arith;
  stars = patched_price u.price_stars p.price_stars stars r.stars;
  usdt = patched_price u.price_usdt p.price_usdt usdt r.usdt;
}

-- rounding takes no price away
still_priced :
    (p : Product) (u : ProductUpdate)
    → left_unpriced p u ≡ false
    → left_unpriced p (columns u) ≡ false
unfolding left_unpriced
still_priced p u h =
    by_price u.price_usdt p.price_usdt (is_some (patched u.price_stars p.price_stars)) h
  where
    by_price :
        (m : Maybe (Option ℕ)) (old : Option ℕ) (stars : Bool)
        → (not stars && not (is_some (patched m old))) ≡ false
        → (not stars && not (is_some (patched (written m) old))) ≡ false
    by_price unset old stars h = h
    by_price (given none) old stars h = h
    by_price (given (some a)) old stars h = h

module _ (env : Env) (pg : Enforces env) where
  -- a flush of a row that can only clash by its slug
  write-Holds :
      (others : List Product → List Product) (p : Product) (w : World)
      → IsProductRow p
      → all_of (λ q. not (p.id == q.id)) (others w.db.products) ≡ true
      → Holds (λ _. Unit) ((translating translate (CatalogTable.write env others p) >> pure p) w).0
  unfolding translate ◌>>=◌ CatalogTable.write
  write-Holds others p w r ids =
      elim (Option-cases (env.product_violation (others w.db.products) p)) [
        | inl fine ↦ elim (Bool-cases (env.unstorable p)) [
          | inl refused ↦ rw refused (inr (inr refl))
          | inr sent ↦ rw (sent, fine) tt
        ]
        | inr (c, e) ↦ elim (Bool-cases (env.unstorable p)) [
          | inl refused ↦ rw refused (inr (inr refl))
          | inr sent ↦
              rw (sent, e, blamed_slug env pg (others w.db.products) p r ids c e) (inl refl)
        ]
      ]

  update-Holds :
      (id : Uuid) (u : ProductUpdate) (w : World) (p : Product)
      → find (is_product id) w.db.products ≡ some p
      → IsProductRow (apply_changes (columns u) p)
      → Holds (λ _. Unit) (CatalogTable.update env id u w).0
  unfolding CatalogTable.update ◌>>=◌ apply_changes
  update-Holds id u w p e r = elim (Bool-cases (is_empty u || unchanged (apply_changes u p) p)) [
    | inl none_given ↦ rw (e, none_given) tt
    | inr some_given ↦
        rw (e, some_given)
          (write-Holds (without p.id)
            (record (apply_changes (columns u) p) { updated_at = env.clock w.tick })
            (record w { tick = w.tick + 1 })
            (record { slug = r.slug; priced = r.priced; stars = r.stars; usdt = r.usdt })
            (apart_without p.id w.db.products))
  ]

  -- the transaction of an update on a product that is stored
  change-Holds :
      (id : Uuid) (changes prepared : ProductUpdate) (w : World)
      → IsSound w.db
      → IsReady changes prepared
      → positive_change changes.price_stars ≡ true
      → positive_change (written changes.price_usdt) ≡ true
      → Holds (λ _. Unit) (change env id prepared w).0
  unfolding change ◌>>=◌ CatalogTable.get
  change-Holds id changes prepared w s r stars usdt =
      elim (Option-cases (find (is_product id) w.db.products)) [
        | inl missing ↦ rw missing (inl refl)
        | inr (p, e) ↦ elim (Bool-cases (left_unpriced p prepared)) [
          | inl unpriced ↦ rw (e, unpriced) (inl refl)
          | inr priced ↦
              rw (e, priced)
                (update-Holds id prepared w p e (
                  changed-IsProductRow (columns prepared) p
                    (All-find IsProductRow (is_product id) w.db.products p s.products e) r.slug
                    (rw r.stars stars) (rw r.usdt usdt) (still_priced p prepared priced)))
        ]
      ]

priced_draft :
    (d : ProductDraft)
    → draft_is_priced d ≡ true
    → (is_some d.price_stars || is_some (numeric d.price_usdt)) ≡ true
priced_draft d h = elim (Option-cases d.price_usdt) [
  | inl missing ↦ rw missing (rw missing at h)
  | inr (a, e) ↦ rw e (rw e at h)
]

module _ {A : Type 0} where
  Holds-close :
      (P : A → Type 0) (before : Db) (r : Result A × World)
      → Holds P r.0
      → Holds P (close before r).0
  Holds-close P before (ok a, w) h = h
  Holds-close P before (err e, w) h = h

module _ {A B : Type 0} where
  Holds-lift :
      (P : A → Type 0) (Q : B → Type 0) (r : Result A) (f : A → Run B) (w : World)
      → Holds P r
      → ((a : A) → P a → Holds Q (f a w).0)
      → Holds Q ((lift r >>= f) w).0
  unfolding ◌>>=◌
  Holds-lift P Q (ok a) f w h k = k a h
  Holds-lift P Q (err e) f w h k = h

-- what is left where only an error counts
module _ {A : Type 0} where
  foreseen : (r : Result A) (e : Error) → Holds (λ _. Unit) r → r ≡ err e → IsForeseen e
  foreseen (ok a) e h eq = absurd (cc)
  foreseen (err d) e h eq = let same : d ≡ e = ground arith in subst IsForeseen same h

module _ (env : Env) (pg : Enforces env) (malformed : List ℕ → Bool) where
  -- Where the database enforces the constraints and the tables are sound: a change of a product
  -- whose given prices are positive, that in USDT after it is rounded to cents, fails, if it fails,
  -- with an error of the application, with the ValueError of a link that `urlparse` cannot read, or
  -- because PostgreSQL or its driver cannot store a value; no constraint is reported raw.
  pub update-IsForeseen :
      (id : Uuid) (changes : ProductUpdate) (w : World) (e : Error)
      → IsSound w.db
      → positive_change changes.price_stars ≡ true
      → positive_change (written changes.price_usdt) ≡ true
      → (update env malformed id changes w).0 ≡ err e
      → IsForeseen e
  unfolding update unit_of_work
  update-IsForeseen id changes w e s stars usdt = foreseen _ e (
      Holds-lift (IsReady changes) (λ _. Unit) _ (λ prepared. unit_of_work (change env id prepared))
        w (prepare_changes-Holds malformed changes)
        (λ prepared r.
          Holds-close (λ _. Unit) w.db (change env id prepared w)
            (change-Holds env pg id changes prepared w s r stars usdt)))

  -- Where the database enforces the constraints: a new product that has a price and whose prices
  -- are positive, that in USDT after it is rounded to cents, is refused, if it is, with an error of the
  -- application, with the ValueError of a link that `urlparse` cannot read, or because PostgreSQL or
  -- its driver cannot store a value, provided that no product bears the identifier drawn for it.
  pub create-IsForeseen :
      (draft : ProductDraft) (w : World) (e : Error)
      → draft_is_priced draft ≡ true
      → positive_price draft.price_stars ≡ true
      → positive_price (numeric draft.price_usdt) ≡ true
      → all_of (λ q. not (env.uuid4 w.tick == q.id)) w.db.products ≡ true
      → (create env malformed draft w).0 ≡ err e
      → IsForeseen e
  unfolding create unit_of_work CatalogTable.create ◌>>=◌
  create-IsForeseen draft w e priced stars usdt fresh = foreseen _ e (
      Holds-lift (IsReadyDraft draft) (λ _. Unit) _
        (λ prepared. unit_of_work (CatalogTable.create env prepared)) w
        (prepare_draft-Holds malformed draft)
        (λ prepared r.
          Holds-close (λ _. Unit) w.db (CatalogTable.create env prepared w)
            (write-Holds env pg (λ ps. ps) _ (record w { tick = w.tick + 1 + 1 })
              (record {
                slug = r.slug;
                priced = rw (r.stars, r.usdt) (priced_draft draft priced);
                stars = rw r.stars stars;
                usdt = rw r.usdt usdt;
              })
              fresh)))
