-- ===== src/Domain/Commands.antt =====
-- backend/app/domain/commands.py, the partial updates of backend/app/domain/patch.py, and the
-- message and invoice objects of backend/app/domain/delivery.py and backend/app/domain/payments.py.
use tg_bot.Base.{ℕ, String, Bool, true, false, not, ◌||◌, Option, is_some}
use tg_bot.Domain.Enums.{Currency, PaymentProvider, PurchaseStatus}
use tg_bot.Domain.Entities.{Uuid, Decimal, Product}

-- `Maybe[ValueT]`: a value, or the sentinel `UNSET`
pub data Maybe {ℓ} (A : Type ℓ) : Type ℓ where
  unset : Maybe A
  given : A → Maybe A

abbrev pub is_set {ℓ} : {A : Type ℓ} → Maybe A → Bool
is_set unset = false
is_set (given _) = true

-- the stored value, unless a new one is given
abbrev pub patched {ℓ} : {A : Type ℓ} → Maybe A → A → A
patched unset old = old
patched (given new) _ = new

pub record ProductDraft : Type 0 where
  pub slug : String
  pub title : String
  pub description : String
  pub delivery_url : String
  pub photo_file_id : Option String
  pub price_stars : Option ℕ
  pub price_usdt : Option Decimal
  pub is_active : Bool

-- `ProductDraft.__post_init__` lets the draft through
abbrev pub draft_is_priced : ProductDraft → Bool
draft_is_priced d = is_some d.price_stars || is_some d.price_usdt

pub record ProductUpdate : Type 0 where
  pub slug : Maybe String
  pub title : Maybe String
  pub description : Maybe String
  pub delivery_url : Maybe String
  pub photo_file_id : Maybe (Option String)
  pub price_stars : Maybe (Option ℕ)
  pub price_usdt : Maybe (Option Decimal)
  pub is_active : Maybe Bool

-- `ProductUpdate.is_empty`: no field is among the `changes`
abbrev pub is_empty : ProductUpdate → Bool
is_empty u = not (
    is_set u.slug
    || is_set u.title
    || is_set u.description
    || is_set u.delivery_url
    || is_set u.photo_file_id
    || is_set u.price_stars
    || is_set u.price_usdt
    || is_set u.is_active)

-- the loop of `setattr` over `changes()` in `SqlAlchemyProductRepository.update`
unfoldable pub apply_changes : ProductUpdate → Product → Product
apply_changes u p = record p {
  slug = patched u.slug p.slug;
  title = patched u.title p.title;
  description = patched u.description p.description;
  delivery_url = patched u.delivery_url p.delivery_url;
  photo_file_id = patched u.photo_file_id p.photo_file_id;
  price_stars = patched u.price_stars p.price_stars;
  price_usdt = patched u.price_usdt p.price_usdt;
  is_active = patched u.is_active p.is_active;
}

pub record UserDraft : Type 0 where
  pub telegram_id : ℕ
  pub username : Option String
  pub first_name : Option String
  pub language_code : Option String

pub record PurchaseDraft : Type 0 where
  pub user_id : ℕ
  pub product_id : Uuid
  pub provider : PaymentProvider
  pub amount : Decimal
  pub currency : Currency
  pub external_id : String
  pub status : Option PurchaseStatus

pub record DeliveryMessage : Type 0 where
  pub chat_id : ℕ
  pub purchase_id : Uuid
  pub product_title : String
  pub delivery_url : String
  pub is_repeat : Bool

pub data DeliveryStatus : Type 0 where
  sent already_delivered failed : DeliveryStatus

pub record DeliveryResult : Type 0 where
  pub status : DeliveryStatus
  pub purchase_id : Uuid
  pub attempts : ℕ
  pub error : Option String

-- `DeliveryResult.succeeded`
abbrev pub succeeded : DeliveryResult → Bool
succeeded r = elim r.status [ failed ↦ false | _ ↦ true ]

pub record InvoiceRequest : Type 0 where
  pub user_id : ℕ
  pub product_id : Uuid
  pub title : String
  pub description : String
  pub amount : Decimal
  pub currency : Currency
  pub payload : String

pub record Invoice : Type 0 where
  pub external_id : String
  pub pay_url : Option String
