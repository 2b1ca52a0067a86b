-- ===== src/Domain/Enums.antt =====
-- backend/app/domain/enums.py.
use tg_bot.Base.{Bool, true, false}

pub data Currency : Type 0 where
  xtr usdt : Currency

pub data PaymentProvider : Type 0 where
  stars crypto : PaymentProvider

pub data PurchaseStatus : Type 0 where
  pending paid delivered refunded expired : PurchaseStatus

-- `PaymentProvider.currency`
abbrev pub currency_of : PaymentProvider → Currency
currency_of stars = xtr
currency_of crypto = usdt

-- `PurchaseStatus.grants_access`, membership in `_ACCESS_GRANTING`
abbrev pub grants_access : PurchaseStatus → Bool
grants_access paid = true
grants_access delivered = true
grants_access _ = false

-- the tests `status is PurchaseStatus.X` and `provider == other`
abbrev pub is_pending : PurchaseStatus → Bool
is_pending pending = true
is_pending _ = false

abbrev pub is_delivered : PurchaseStatus → Bool
is_delivered delivered = true
is_delivered _ = false

abbrev pub is_refunded : PurchaseStatus → Bool
is_refunded refunded = true
is_refunded _ = false

abbrev pub same_provider : PaymentProvider → PaymentProvider → Bool
same_provider stars stars = true
same_provider crypto crypto = true
same_provider _ _ = false
