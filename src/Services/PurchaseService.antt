-- ===== src/Services/PurchaseService.antt =====
-- backend/app/services/purchases.py: the life of a purchase.
use tg_bot.Base.{ℕ, ◌-◌, String, false, not, Option, none, some, List, is_some}
use tg_bot.Errors.{
  product_not_found, product_inactive, user_not_found, provider_not_supported, duplicate_purchase,
  purchase_not_found,
}
use tg_bot.Domain.{
  Uuid, DateTime, Decimal, PaymentProvider, currency_of, Product, price_for, supports,
  available_providers, Purchase, PaymentOption, ProductCard, UserDraft, User, purchase_lock_key,
  payment_lock_key,
}
use tg_bot.World.{
  Env, Result, ok, err, Run, ◌>>=◌, ◌>>◌, pure, raise_if, or_raise, lift, unit_of_work, locked,
}
use tg_bot.Repository.PurchaseTable
use tg_bot.Repository.CatalogTable

-- `_price`
abbrev pub price : Product → PaymentProvider → Result Decimal
price product provider = elim (price_for product provider) [
  | none ↦ err provider_not_supported
  | some n ↦ ok n
]

abbrev option_on : Product → PaymentProvider → Run PaymentOption
option_on product provider = do
  amount ← lift (price product provider)
  pure (record { provider = provider; amount = amount; currency = currency_of provider })

-- the comprehension over `available_providers`
unfoldable pub options : Product → List PaymentProvider → Run (List PaymentOption)
options product List.[] = pure List.[]
options product (List.◌∷◌ provider rest) = do
  option ← option_on product provider
  others ← options product rest
  pure (List.◌∷◌ option others)

-- `uow.products.get`, refusing what is missing or not on sale
unfoldable pub sellable : Uuid → Run Product
sellable product_id = do
  product ← or_raise product_not_found (← CatalogTable.get product_id)
  raise_if (not product.is_active) product_inactive
  pure product

module _ (env : Env) where
  -- the transaction of `open_card`
  unfoldable pub visit : UserDraft → String → Run (Product × Option Purchase)
  visit profile slug = unit_of_work do
    CatalogTable.upsert env profile
    product ← or_raise product_not_found (← CatalogTable.get_by_slug slug false)
    raise_if (not product.is_active) product_inactive
    owned ← PurchaseTable.find_access_granting profile.telegram_id product.id
    pure (product, owned)

  unfoldable pub open_card : UserDraft → String → Run ProductCard
  open_card profile slug = do
    (product, owned) ← visit profile slug
    shown ← options product (available_providers product)
    pure (record { product = product; options = shown; owned_purchase = owned })

  unfoldable pub remember_user : UserDraft → Run User
  remember_user profile = unit_of_work (CatalogTable.upsert env profile)

  -- the body of `start_purchase`, inside the lock and the transaction
  unfoldable pub reserve : ℕ → Uuid → PaymentProvider → String → Run Purchase
  reserve user_id product_id provider external_id = do
    _ ← or_raise user_not_found (← CatalogTable.get_user user_id)
    product ← sellable product_id
    raise_if (not (supports product provider)) provider_not_supported
    owned ← PurchaseTable.find_access_granting user_id product_id
    raise_if (is_some owned) duplicate_purchase
    amount ← lift (price product provider)
    PurchaseTable.create env (record {
      user_id = user_id;
      product_id = product_id;
      provider = provider;
      amount = amount;
      currency = currency_of provider;
      external_id = external_id;
      status = none;
    })

  unfoldable pub start_purchase : ℕ → Uuid → PaymentProvider → String → Run Purchase
  start_purchase user_id product_id provider external_id =
      locked env (purchase_lock_key user_id product_id)
        (unit_of_work (reserve user_id product_id provider external_id))

  -- the body of `confirm_payment`, inside the lock and the transaction
  unfoldable pub confirm : PaymentProvider → String → Option String → Option DateTime → Run Purchase
  confirm provider external_id charge paid_at = do
    purchase ← or_raise purchase_not_found (← PurchaseTable.get_by_external_id provider external_id)
    PurchaseTable.mark_paid env purchase.id paid_at charge

  unfoldable pub confirm_payment :
      PaymentProvider → String → Option String → Option DateTime → Run Purchase
  confirm_payment provider external_id charge paid_at =
      locked env (payment_lock_key provider external_id)
        (unit_of_work (confirm provider external_id charge paid_at))

  unfoldable pub mark_delivered : Uuid → String → Run Purchase
  mark_delivered purchase_id delivered_url =
      unit_of_work (PurchaseTable.mark_delivered env purchase_id delivered_url none)

  unfoldable pub refund : Uuid → Run Purchase
  refund purchase_id = unit_of_work (PurchaseTable.mark_refunded env purchase_id)

  unfoldable pub refund_by_charge_id : String → Run Purchase
  refund_by_charge_id charge = unit_of_work do
    purchase ← or_raise purchase_not_found (← PurchaseTable.get_by_charge_id charge)
    PurchaseTable.mark_refunded env purchase.id

  unfoldable pub expire_stale : Option DateTime → Run ℕ
  expire_stale now = do
    moment ← PurchaseTable.moment_or_now env now
    unit_of_work (PurchaseTable.expire_pending (moment - env.invoice_ttl))

unfoldable pub get : Uuid → Run Purchase
get purchase_id = do
  found ← unit_of_work (PurchaseTable.get purchase_id)
  or_raise purchase_not_found found

unfoldable pub product_for_checkout : Uuid → Run Product
product_for_checkout product_id = do
  found ← unit_of_work (CatalogTable.get product_id)
  product ← or_raise product_not_found found
  raise_if (not product.is_active) product_inactive
  pure product

unfoldable pub find_by_invoice : PaymentProvider → String → Run (Option Purchase)
find_by_invoice provider external_id =
    unit_of_work (PurchaseTable.get_by_external_id provider external_id)

unfoldable pub find_owned : ℕ → Uuid → Run (Option Purchase)
find_owned user_id product_id = unit_of_work (PurchaseTable.find_access_granting user_id product_id)

unfoldable pub list_pending : PaymentProvider → ℕ → Run (List Purchase)
list_pending provider limit = unit_of_work (PurchaseTable.list_pending provider limit)
