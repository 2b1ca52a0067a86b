-- ===== src/Services/ProductService.antt =====
-- backend/app/services/products.py: creating, editing and reading products.
use tg_bot.Base.{String, Bool, not, ◌&&◌, is_some}
use tg_bot.Errors.{product_not_found, invalid_price}
use tg_bot.Domain.{Uuid, Product, ProductDraft, ProductUpdate, Maybe, unset, given, patched}
use tg_bot.World.{
  then_on, Env, Result, ok, Run, ◌>>=◌, ◌>>◌, raise_if, or_raise, lift, unit_of_work,
}
use tg_bot.Repository.CatalogTable
use tg_bot.Texts.Strip.{strip}
use tg_bot.Texts.Slugs.{normalise_slug}
use tg_bot.Texts.Urls.{validate_delivery_url}
use tg_bot.Base.{List, ℕ}

module _ {A : Type 0} where
  -- `if is_set(value): check(value)`
  abbrev pub checked : (A → Result A) → Maybe A → Result (Maybe A)
  checked f unset = ok unset
  checked f (given a) = then_on (f a) (λ b. ok (given b))

abbrev pub stripped : Maybe String → Maybe String
stripped unset = unset
stripped (given s) = given (strip s)

-- `_ensure_still_purchasable` raises
unfoldable pub left_unpriced : Product → ProductUpdate → Bool
left_unpriced current changes =
    not (is_some (patched changes.price_stars current.price_stars))
    && not (is_some (patched changes.price_usdt current.price_usdt))

module _ (malformed : List ℕ → Bool) where
  -- `_prepare_changes`
  unfoldable pub prepare_changes : ProductUpdate → Result ProductUpdate
  prepare_changes changes = then_on (checked normalise_slug changes.slug) λ slug.
      then_on (checked (validate_delivery_url malformed) changes.delivery_url) λ url.
        ok (record changes { slug = slug; title = stripped changes.title; delivery_url = url })

  -- the `replace` of `create`
  unfoldable pub prepare_draft : ProductDraft → Result ProductDraft
  prepare_draft draft = then_on (normalise_slug draft.slug) λ slug.
      then_on (validate_delivery_url malformed draft.delivery_url)
        λ url. ok (record draft { slug = slug; title = strip draft.title; delivery_url = url })

module _ (env : Env) where
  -- the transaction of `update`
  unfoldable pub change : Uuid → ProductUpdate → Run Product
  change product_id prepared = do
    current ← or_raise product_not_found (← CatalogTable.get product_id)
    raise_if (left_unpriced current prepared) invalid_price
    CatalogTable.update env product_id prepared

  module _ (malformed : List ℕ → Bool) where
    unfoldable pub create : ProductDraft → Run Product
    create draft = do
      prepared ← lift (prepare_draft malformed draft)
      unit_of_work (CatalogTable.create env prepared)

    unfoldable pub update : Uuid → ProductUpdate → Run Product
    update product_id changes = do
      prepared ← lift (prepare_changes malformed changes)
      unit_of_work (change product_id prepared)

unfoldable pub delete : Uuid → Run (Unit {0})
delete product_id = unit_of_work (CatalogTable.delete product_id)

unfoldable pub get : Uuid → Run Product
get product_id = do
  product ← unit_of_work (CatalogTable.get product_id)
  or_raise product_not_found product

unfoldable pub get_by_slug : String → Bool → Run Product
get_by_slug slug only_active = do
  product ← unit_of_work (CatalogTable.get_by_slug slug only_active)
  or_raise product_not_found product
