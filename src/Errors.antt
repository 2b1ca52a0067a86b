-- ===== src/Errors.antt =====
-- backend/app/core/exceptions.py: the errors an operation can raise, and five that come from below
-- the application: a constraint that no handler translates, a value that PostgreSQL or its driver
-- refuses, a lookup that matches two rows, a value that Python refuses, and a call that Telegram
-- refuses.
use tg_bot.Base.{ℕ, String, Bool, true, false, Option, none, some}

-- the constraints of backend/app/infrastructure/db/models.py
pub data Constraint : Type 0 where
  pk_products pk_purchases : Constraint
  uq_products_slug slug_format price_present price_stars_positive price_usdt_positive : Constraint
  telegram_id_positive : Constraint
  uq_purchases_provider_external_id uq_purchases_user_product_paid : Constraint
  uq_purchases_telegram_charge_id : Constraint
  amount_positive paid_at_present delivery_complete : Constraint
  fk_purchases_user_id fk_purchases_product_id : Constraint

pub data Error : Type 0 where
  service_unavailable : Error
  product_not_found purchase_not_found user_not_found : Error
  conflict slug_already_exists duplicate_purchase lock_busy product_inactive : Error
  invalid_slug invalid_price provider_not_supported invalid_delivery_url : Error
  delivery_permanent : String → Error
  delivery_transient : String → Option ℕ → Error
  authentication invalid_token too_many_attempts : Error
  payment_gateway : Error
  invalid_webhook_signature : Error
  integrity : Constraint → Error
  data_error : Error
  multiple_results : Error
  value_error : Error
  telegram_refused : Error

-- `isinstance(error, AppError)`
abbrev pub is_app_error : Error → Bool
is_app_error (integrity _) = false
is_app_error data_error = false
is_app_error multiple_results = false
is_app_error value_error = false
is_app_error telegram_refused = false
is_app_error _ = true

-- `isinstance(error, ConflictError)`
abbrev pub is_conflict_error : Error → Bool
is_conflict_error conflict = true
is_conflict_error slug_already_exists = true
is_conflict_error duplicate_purchase = true
is_conflict_error lock_busy = true
is_conflict_error product_inactive = true
is_conflict_error _ = false

-- the attribute `status_code` of an `AppError`
unfoldable pub status_code : Error → Option ℕ
status_code service_unavailable = some 503
status_code product_not_found = some 404
status_code purchase_not_found = some 404
status_code user_not_found = some 404
status_code conflict = some 409
status_code slug_already_exists = some 409
status_code duplicate_purchase = some 409
status_code lock_busy = some 409
status_code product_inactive = some 409
status_code invalid_slug = some 422
status_code invalid_price = some 422
status_code provider_not_supported = some 422
status_code invalid_delivery_url = some 422
status_code (delivery_permanent _) = some 502
status_code (delivery_transient _ _) = some 502
status_code authentication = some 401
status_code invalid_token = some 401
status_code too_many_attempts = some 429
status_code payment_gateway = some 502
status_code invalid_webhook_signature = some 401
status_code _ = none
