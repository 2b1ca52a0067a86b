-- ===== src/Domain/Entities.antt =====
-- backend/app/domain/entities.py, and the cards of backend/app/domain/cards.py.
-- A UUID and a Telegram id are natural numbers, a datetime counts microseconds, and a Decimal
-- counts millionths, the scale of the money column.
use tg_bot.Base.{ℕ, ◌*◌, String, Bool, Option, none, some, List, [], ◌∷◌, is_some, select}
use tg_bot.Domain.Enums.{Currency, PaymentProvider, stars, crypto, PurchaseStatus, grants_access}

abbrev pub Uuid : Type 0
Uuid = ℕ

abbrev pub DateTime : Type 0
DateTime = ℕ

abbrev pub Decimal : Type 0
Decimal = ℕ

-- `Decimal(n)` of an int
abbrev pub decimal : ℕ → Decimal
decimal n = n * 1000000

pub record Product : Type 0 where
  pub id : Uuid
  pub slug : String
  pub title : String
  pub description : String
  pub photo_file_id : Option String
  pub delivery_url : String
  pub price_stars : Option ℕ
  pub price_usdt : Option Decimal
  pub is_active : Bool
  pub created_at : DateTime
  pub updated_at : DateTime

abbrev decimal_option : Option ℕ → Option Decimal
decimal_option none = none
decimal_option (some n) = some (decimal n)

-- `Product.price_for`; an int and a Decimal of equal value are one number here
abbrev pub price_for : Product → PaymentProvider → Option Decimal
price_for p stars = decimal_option p.price_stars
price_for p crypto = p.price_usdt

-- `Product.supports`
abbrev pub supports : Product → PaymentProvider → Bool
supports p provider = is_some (price_for p provider)

-- `Product.available_providers`, in the order of the enumeration
unfoldable pub available_providers : Product → List PaymentProvider
available_providers p = select (supports p) (stars ∷ crypto ∷ [])

pub record User : Type 0 where
  pub telegram_id : ℕ
  pub username : Option String
  pub first_name : Option String
  pub language_code : Option String
  pub created_at : DateTime
  pub last_seen_at : DateTime

pub record Purchase : Type 0 where
  pub id : Uuid
  pub user_id : ℕ
  pub product_id : Uuid
  pub provider : PaymentProvider
  pub status : PurchaseStatus
  pub amount : Decimal
  pub currency : Currency
  pub external_id : String
  pub telegram_charge_id : Option String
  pub delivered_url : Option String
  pub created_at : DateTime
  pub paid_at : Option DateTime
  pub delivered_at : Option DateTime

-- `Purchase.grants_access`
abbrev pub grants : Purchase → Bool
grants p = grants_access p.status

-- A purchase with its buyer and its product.
pub record PurchaseRecord : Type 0 where
  pub purchase : Purchase
  pub user : User
  pub product : Product

pub record PaymentOption : Type 0 where
  pub provider : PaymentProvider
  pub amount : Decimal
  pub currency : Currency

pub record ProductCard : Type 0 where
  pub product : Product
  pub options : List PaymentOption
  pub owned_purchase : Option Purchase

-- `ProductCard.is_owned`
abbrev pub is_owned : ProductCard → Bool
is_owned card = is_some card.owned_purchase
