-- ===== src/Catalog/Refusals.antt =====
-- Which errors creating and changing a product can end in.
use tg_bot.Base.{
  ◌≡◌, refl, Bool, true, false, not, Option, some, all_of, if◌then◌else◌, inl, inr, ◌⊎◌, Bool-cases,
  ℕ, List, ◌==◌, String,
}
use tg_bot.Errors.{
  Error, Constraint, is_app_error, value_error, data_error, invalid_delivery_url, uq_products_slug,
  pk_products, slug_format, price_present, price_stars_positive, price_usdt_positive,
}
use tg_bot.Domain.{Product, ProductDraft, ProductUpdate, Maybe, unset, given}
use tg_bot.Domain.Slug.{matches_slug_pattern}
use tg_bot.World.{then_on, Env, Enforces, Result, ok, err, product_holds, positive_price}
use tg_bot.Sound.Rows.{IsProductRow}
use tg_bot.Texts.Strip.{strip}
use tg_bot.Texts.Slugs.{normalise_slug, normalise_slug_lem}
use tg_bot.Texts.Urls.{validate_delivery_url, split_scheme, split_netloc, cleaned}
use tg_bot.Services.ProductService.{checked, prepare_changes, prepare_draft}

-- An error of the application, the ValueError of a link that `urlparse` cannot read, or a value
-- that PostgreSQL or its driver cannot store.
abbrev pub IsForeseen : Error → Type 0
IsForeseen e = (is_app_error e ≡ true) ⊎ ((e ≡ value_error) ⊎ (e ≡ data_error))

-- A result that has a property, or an error that is foreseen.
module _ {A : Type 0} where
  abbrev pub Holds : (A → Type 0) → Result A → Type 0
  Holds P (ok a) = P a
  Holds P (err e) = IsForeseen e

module _ {A B : Type 0} where
  Holds-then :
      (P : A → Type 0) (Q : B → Type 0) (r : Result A) (f : A → Result B)
      → Holds P r
      → ((a : A) → P a → Holds Q (f a))
      → Holds Q (then_on r f)
  Holds-then P Q (ok a) f h k = k a h
  Holds-then P Q (err e) f h k = h

-- the prices that are given are positive
abbrev pub positive_change : Maybe (Option ℕ) → Bool
positive_change unset = true
positive_change (given price) = positive_price price

abbrev pub IsSlug : String → Type 0
IsSlug s = matches_slug_pattern s ≡ true

IsSlug-Holds : (s : String) → Holds IsSlug (normalise_slug s)
IsSlug-Holds s = elim (Bool-cases (matches_slug_pattern (strip s))) [
  | inl good ↦ rw (normalise_slug_lem s, good) good
  | inr bad ↦ rw (normalise_slug_lem s, bad) (inl refl)
]

abbrev pub IsGiven : (String → Type 0) → Maybe String → Type 0
IsGiven P unset = Unit
IsGiven P (given s) = P s

checked-Holds :
    (P : String → Type 0) (f : String → Result String) (m : Maybe String)
    → ((s : String) → Holds P (f s))
    → Holds (IsGiven P) (checked f m)
checked-Holds P f unset h = tt
checked-Holds P f (given s) h =
    Holds-then P (IsGiven P) (f s) (λ b. ok (given b)) (h s) (λ b hb. hb)

-- what `_prepare_changes` makes of an update
pub record IsReady (changes prepared : ProductUpdate) : Type 0 where
  pub slug : IsGiven IsSlug prepared.slug
  pub stars : prepared.price_stars ≡ changes.price_stars
  pub usdt : prepared.price_usdt ≡ changes.price_usdt

pub record IsReadyDraft (draft prepared : ProductDraft) : Type 0 where
  pub slug : IsSlug prepared.slug
  pub stars : prepared.price_stars ≡ draft.price_stars
  pub usdt : prepared.price_usdt ≡ draft.price_usdt

module _ (malformed : List ℕ → Bool) where
  url-Holds : (s : String) → Holds (λ _. Unit) (validate_delivery_url malformed s)
  unfolding validate_delivery_url
  url-Holds s = elim (Bool-cases (malformed (split_netloc (split_scheme (cleaned (strip s))).1))) [
    | inl bad ↦ rw bad (inr (inl refl))
    | inr fine ↦ rw fine (refused _)
  ]
    where
      refused :
          (b : Bool) → Holds (λ _. Unit) (if b then err invalid_delivery_url else ok (strip s))
      refused true = inl refl
      refused false = tt

  pub prepare_changes-Holds :
      (changes : ProductUpdate) → Holds (IsReady changes) (prepare_changes malformed changes)
  unfolding prepare_changes
  prepare_changes-Holds changes =
      Holds-then (IsGiven IsSlug) (IsReady changes) _ _
        (checked-Holds IsSlug normalise_slug changes.slug IsSlug-Holds)
        (λ slug good.
          Holds-then (IsGiven (λ _. Unit)) (IsReady changes) _ _
            (checked-Holds (λ _. Unit) (validate_delivery_url malformed) changes.delivery_url
              url-Holds)
            (λ url fine. record { slug = good; stars = refl; usdt = refl }))

  pub prepare_draft-Holds :
      (draft : ProductDraft) → Holds (IsReadyDraft draft) (prepare_draft malformed draft)
  unfolding prepare_draft
  prepare_draft-Holds draft =
      Holds-then IsSlug (IsReadyDraft draft) _ _ (IsSlug-Holds draft.slug) (λ slug good.
        Holds-then (λ _. Unit) (IsReadyDraft draft) _ _ (url-Holds draft.delivery_url)
          (λ url fine. record { slug = good; stars = refl; usdt = refl }))

-- PostgreSQL can blame a row that meets its own constraints, beside rows with other ids, only for
-- its slug.
module _ (env : Env) (pg : Enforces env) where
  pub blamed_slug :
      (rows : List Product) (p : Product)
      → IsProductRow p
      → all_of (λ q. not (p.id == q.id)) rows ≡ true
      → (c : Constraint) → env.product_violation rows p ≡ some c
      → c ≡ uq_products_slug
  unfolding product_holds
  blamed_slug rows p r ids pk_products e = absurd (cc (pg.product_blamed rows p pk_products e))
  blamed_slug rows p r ids uq_products_slug e = refl
  blamed_slug rows p r ids slug_format e =
      absurd (cc (pg.product_blamed rows p slug_format e, r.slug))
  blamed_slug rows p r ids price_present e =
      absurd (cc (pg.product_blamed rows p price_present e, r.priced))
  blamed_slug rows p r ids price_stars_positive e =
      absurd (cc (pg.product_blamed rows p price_stars_positive e, r.stars))
  blamed_slug rows p r ids price_usdt_positive e =
      absurd (cc (pg.product_blamed rows p price_usdt_positive e, r.usdt))
  blamed_slug rows p r ids c e = absurd (cc (pg.product_blamed rows p c e))
