-- ===== src/World/Schema.antt =====
-- backend/app/infrastructure/db/models.py: which rows the constraints let stand side by side.
use tg_bot.Base.{
  ℕ, String, Bool, true, false, not, ◌&&◌, ◌||◌, Option, none, some, List, is_some, all_of, ltb,
  find, ◌==◌, str_eq,
}
use tg_bot.Errors.{
  Constraint, pk_products, pk_purchases, uq_products_slug, slug_format, price_present,
  price_stars_positive, price_usdt_positive, uq_purchases_provider_external_id,
  uq_purchases_user_product_paid, uq_purchases_telegram_charge_id, amount_positive, paid_at_present,
  delivery_complete, fk_purchases_user_id, fk_purchases_product_id,
}
use tg_bot.Domain.{
  Product, Purchase, User, Uuid, PurchaseStatus, pending, expired, delivered, same_provider, grants,
}
use tg_bot.Domain.Slug.{matches_slug_pattern}
use tg_bot.World.Actions.{Db}

abbrev pub has_id : Uuid → Purchase → Bool
has_id id p = p.id == id

abbrev pub is_product : Uuid → Product → Bool
is_product id p = p.id == id

abbrev pub is_user : ℕ → User → Bool
is_user id u = u.telegram_id == id

-- `uq_purchases_provider_external_id`
abbrev pub same_invoice : Purchase → Purchase → Bool
same_invoice p q = same_provider p.provider q.provider && str_eq p.external_id q.external_id

-- the partial unique index `uq_purchases_user_product_paid`
abbrev pub both_owned : Purchase → Purchase → Bool
both_owned p q = p.user_id == q.user_id && p.product_id == q.product_id && grants p && grants q

abbrev pub same_text : Option String → Option String → Bool
same_text (some a) (some b) = str_eq a b
same_text _ _ = false

-- the partial unique index `uq_purchases_telegram_charge_id`
abbrev pub same_charge : Purchase → Purchase → Bool
same_charge p q = same_text p.telegram_charge_id q.telegram_charge_id

abbrev unpaid_status : PurchaseStatus → Bool
unpaid_status pending = true
unpaid_status expired = true
unpaid_status _ = false

-- `paid_at_present`: status IN ('pending', 'expired') OR paid_at IS NOT NULL
abbrev pub paid_at_ok : Purchase → Bool
paid_at_ok p = unpaid_status p.status || is_some p.paid_at

abbrev is_delivered_status : PurchaseStatus → Bool
is_delivered_status delivered = true
is_delivered_status _ = false

-- `delivery_complete`
abbrev pub delivery_ok : Purchase → Bool
delivery_ok p =
    not (is_delivered_status p.status) || (is_some p.delivered_at && is_some p.delivered_url)

-- Whether a constraint of `PurchaseModel` holds of a row beside the others.
unfoldable pub purchase_holds : Constraint → Db → List Purchase → Purchase → Bool
purchase_holds pk_purchases db others p = all_of (λ q. not (p.id == q.id)) others
purchase_holds uq_purchases_provider_external_id db others p =
    all_of (λ q. not (same_invoice p q)) others
purchase_holds uq_purchases_user_product_paid db others p =
    all_of (λ q. not (both_owned p q)) others
purchase_holds uq_purchases_telegram_charge_id db others p =
    all_of (λ q. not (same_charge p q)) others
purchase_holds amount_positive db others p = ltb 0 p.amount
purchase_holds paid_at_present db others p = paid_at_ok p
purchase_holds delivery_complete db others p = delivery_ok p
purchase_holds fk_purchases_user_id db others p = is_some (find (is_user p.user_id) db.users)
purchase_holds fk_purchases_product_id db others p =
    is_some (find (is_product p.product_id) db.products)
purchase_holds _ db others p = true

-- a price is missing or positive
abbrev pub positive_price : Option ℕ → Bool
positive_price none = true
positive_price (some n) = ltb 0 n

-- Whether a constraint of `ProductModel` holds of a row beside the others.
unfoldable pub product_holds : Constraint → List Product → Product → Bool
product_holds pk_products others p = all_of (λ q. not (p.id == q.id)) others
product_holds uq_products_slug others p = all_of (λ q. not (str_eq p.slug q.slug)) others
product_holds slug_format others p = matches_slug_pattern p.slug
product_holds price_present others p = is_some p.price_stars || is_some p.price_usdt
product_holds price_stars_positive others p = positive_price p.price_stars
product_holds price_usdt_positive others p = positive_price p.price_usdt
product_holds _ others p = true
