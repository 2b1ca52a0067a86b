-- ===== src/Api/Schemas.antt =====
-- backend/app/api/schemas/products.py: which bodies pass, and the commands that they become.
-- A field of a JSON body is absent, null or a value. Prices below zero are refused like zero, and are
-- not modelled; a price in USDT counts millionths.
use tg_bot.Base.{
  ℕ, ◌%◌, String, Bool, true, false, not, ◌&&◌, ◌||◌, Option, none, some, is_some, length, ltb, leb,
  ◌==◌, if◌then◌else◌,
}
use tg_bot.Domain.{Decimal, decimal, Maybe, unset, given, is_set, ProductDraft, ProductUpdate}
use tg_bot.Domain.Slug.{codes, slug_max_length, matches_slug_pattern}

abbrev pub max_title : ℕ
max_title = 255

abbrev pub max_description : ℕ
max_description = 4096

abbrev pub max_url : ℕ
max_url = 2048

abbrev pub max_photo_id : ℕ
max_photo_id = 255

abbrev pub stars_max : ℕ
stars_max = 1000000

abbrev pub usdt_max : Decimal
usdt_max = decimal 1000000

abbrev pub length_within : ℕ → ℕ → String → Bool
length_within low high s = leb low (length (codes s)) && leb (length (codes s)) high

-- `Field(pattern=SLUG_PATTERN, max_length=SLUG_MAX_LENGTH)`; `$` of pydantic's pattern is the end
abbrev pub slug_field : String → Bool
slug_field s = matches_slug_pattern s && length_within 0 slug_max_length s

abbrev pub stars_field : ℕ → Bool
stars_field n = ltb 0 n && leb n stars_max

-- at most two decimal places
abbrev pub usdt_field : Decimal → Bool
usdt_field n = ltb 0 n && leb n usdt_max && n % 10000 == 0

module _ {A : Type 0} where
  abbrev pub null_or : (A → Bool) → Option A → Bool
  null_or test none = true
  null_or test (some a) = test a

  abbrev pub absent_or : (A → Bool) → Maybe A → Bool
  absent_or test unset = true
  absent_or test (given a) = test a

-- The fields that have a default take it where the body leaves them out.
pub record ProductCreateRequest : Type 0 where
  pub slug : String
  pub title : String
  pub description : String
  pub delivery_url : String
  pub photo_file_id : Option String
  pub price_stars : Option ℕ
  pub price_usdt : Option Decimal
  pub is_active : Bool

-- the fields' constraints, and `_at_least_one_price`
unfoldable pub accepts_create : ProductCreateRequest → Bool
accepts_create b =
    slug_field b.slug
    && length_within 1 max_title b.title
    && length_within 0 max_description b.description
    && length_within 1 max_url b.delivery_url
    && null_or (length_within 0 max_photo_id) b.photo_file_id
    && null_or stars_field b.price_stars
    && null_or usdt_field b.price_usdt
    && (is_some b.price_stars || is_some b.price_usdt)

unfoldable pub to_draft : ProductCreateRequest → ProductDraft
to_draft b = record {
  slug = b.slug;
  title = b.title;
  description = b.description;
  delivery_url = b.delivery_url;
  photo_file_id = b.photo_file_id;
  price_stars = b.price_stars;
  price_usdt = b.price_usdt;
  is_active = b.is_active;
}

pub record ProductPatchRequest : Type 0 where
  pub slug : Maybe (Option String)
  pub title : Maybe (Option String)
  pub description : Maybe (Option String)
  pub delivery_url : Maybe (Option String)
  pub photo_file_id : Maybe (Option String)
  pub price_stars : Maybe (Option ℕ)
  pub price_usdt : Maybe (Option Decimal)
  pub is_active : Maybe (Option Bool)

-- the fields' constraints
unfoldable pub accepts_patch : ProductPatchRequest → Bool
accepts_patch b =
    absent_or (null_or slug_field) b.slug
    && absent_or (null_or (length_within 1 max_title)) b.title
    && absent_or (null_or (length_within 0 max_description)) b.description
    && absent_or (null_or (length_within 1 max_url)) b.delivery_url
    && absent_or (null_or (length_within 0 max_photo_id)) b.photo_file_id
    && absent_or (null_or stars_field) b.price_stars
    && absent_or (null_or usdt_field) b.price_usdt

-- `ProductPatchRequest.is_empty`
unfoldable pub is_empty_patch : ProductPatchRequest → Bool
is_empty_patch b = not (
    is_set b.slug
    || is_set b.title
    || is_set b.description
    || is_set b.delivery_url
    || is_set b.photo_file_id
    || is_set b.price_stars
    || is_set b.price_usdt
    || is_set b.is_active)

module _ {A : Type 0} where
  abbrev pub is_null : Maybe (Option A) → Bool
  is_null (given none) = true
  is_null _ = false

  -- a field of the command, where a null was refused before
  abbrev pub supplied : Maybe (Option A) → Maybe A
  supplied (given (some a)) = given a
  supplied _ = unset

-- `_reject_nulls_where_meaningless` raises
unfoldable pub rejects_nulls : ProductPatchRequest → Bool
rejects_nulls b =
    is_null b.slug
    || is_null b.title
    || is_null b.description
    || is_null b.delivery_url
    || is_null b.is_active

-- `to_update` behind the model validator: none where that raises
unfoldable pub to_update : ProductPatchRequest → Option ProductUpdate
unfolding rejects_nulls
to_update b =
    if rejects_nulls b
    then none
    else some (record {
      slug = supplied b.slug;
      title = supplied b.title;
      description = supplied b.description;
      delivery_url = supplied b.delivery_url;
      photo_file_id = b.photo_file_id;
      price_stars = b.price_stars;
      price_usdt = b.price_usdt;
      is_active = supplied b.is_active;
    })
