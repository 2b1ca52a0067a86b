-- ===== src/Repository/CatalogTable.antt =====
-- backend/app/infrastructure/db/repositories/products.py and users.py, without the listing of the
-- admin panel.
use tg_bot.Base.{
  ℕ, ◌+◌, ◌*◌, ◌/◌, String, Bool, true, false, not, ◌&&◌, ◌||◌, Option, none, some, List, ◌∷◌,
  length, select, find, ltb, ◌==◌, str_eq, if◌then◌else◌,
}
use tg_bot.Errors.{
  Error, Constraint, integrity, data_error, conflict, product_not_found, slug_already_exists,
  uq_products_slug, telegram_id_positive,
}
use tg_bot.Domain.{
  Uuid, Decimal, Product, User, Maybe, unset, given, ProductDraft, ProductUpdate, UserDraft,
  is_empty, apply_changes,
}
use tg_bot.World.{
  Env, World, Run, ok, err, ◌>>=◌, ◌>>◌, pure, raise_if, lift, gets, or_raise, one_or_none,
  translating, ask, is_product, is_user,
}

abbrev pub without : Uuid → List Product → List Product
without id = select (λ q. not (q.id == id))

abbrev pub matches_slug : String → Bool → Product → Bool
matches_slug slug only_active p = str_eq p.slug slug && (if only_active then p.is_active else true)

unfoldable pub get : Uuid → Run (Option Product)
get id = gets (λ w. find (is_product id) w.db.products)

unfoldable pub get_by_slug : String → Bool → Run (Option Product)
get_by_slug slug only_active w =
    lift (one_or_none (select (matches_slug slug only_active) w.db.products)) w

-- the `except IntegrityError` of `create` and `update`
unfoldable pub translate : Error → Error
translate (integrity uq_products_slug) = slug_already_exists
translate e = e

unfoldable pub get_user : ℕ → Run (Option User)
get_user telegram_id = gets (λ w. find (is_user telegram_id) w.db.users)

-- the purchases that name a product
abbrev pub sold : Uuid → World → ℕ
sold id w = length (select (λ p. p.product_id == id) w.db.purchases)

unfoldable pub delete : Uuid → Run (Unit {0})
delete id = do
  _ ← or_raise product_not_found (← gets (λ w. find (is_product id) w.db.products))
  purchases ← gets (sold id)
  raise_if (ltb 0 purchases) conflict
  λ w. (ok tt, record w { db = record (w.db) { products = without id w.db.products } })

-- what a flush does with PostgreSQL's verdict on a row beside the given others
abbrev pub stored : List Product → Product → Option Constraint → Run (Unit {0})
stored rows p (some c) w = (err (integrity c), w)
stored rows p none w = (ok tt, record w { db = record (w.db) { products = p ∷ rows } })

-- NUMERIC(12, 2): PostgreSQL rounds to the nearest cent, the half away from zero.
abbrev pub cents : Decimal → Decimal
cents amount = (amount + 5000) / 10000 * 10000

abbrev pub numeric : Option Decimal → Option Decimal
numeric none = none
numeric (some amount) = some (cents amount)

abbrev pub written : Maybe (Option Decimal) → Maybe (Option Decimal)
written unset = unset
written (given price) = given (numeric price)

-- what the columns that are set will hold
abbrev pub columns : ProductUpdate → ProductUpdate
columns u = record u { price_usdt = written u.price_usdt }

abbrev equal_option : {A : Type 0} → (A → A → Bool) → Option A → Option A → Bool
equal_option eq none none = true
equal_option eq (some a) (some b) = eq a b
equal_option eq _ _ = false

-- every field that `setattr` can set is as it was, so that SQLAlchemy emits no UPDATE
abbrev pub unchanged : Product → Product → Bool
unchanged p q =
    str_eq p.slug q.slug
    && str_eq p.title q.title
    && str_eq p.description q.description
    && str_eq p.delivery_url q.delivery_url
    && equal_option str_eq p.photo_file_id q.photo_file_id
    && equal_option (λ a b. a == b) p.price_stars q.price_stars
    && equal_option (λ a b. a == b) p.price_usdt q.price_usdt
    && (if p.is_active then q.is_active else not q.is_active)

module _ (env : Env) where
  unfoldable pub write : (List Product → List Product) → Product → Run (Unit {0})
  write others p w =
      let rows = others w.db.products in
      if env.unstorable p
      then (err data_error, w)
      else stored rows p (env.product_violation rows p) w

  unfoldable pub create : ProductDraft → Run Product
  create draft = do
    id ← ask env.uuid4
    now ← ask env.clock
    let product : Product = record {
      id = id;
      slug = draft.slug;
      title = draft.title;
      description = draft.description;
      photo_file_id = draft.photo_file_id;
      delivery_url = draft.delivery_url;
      price_stars = draft.price_stars;
      price_usdt = numeric draft.price_usdt;
      is_active = draft.is_active;
      created_at = now;
      updated_at = now;
    }
    translating translate (write (λ ps. ps) product)
    pure product

  unfoldable pub update : Uuid → ProductUpdate → Run Product
  update id changes = do
    current ← or_raise product_not_found (← gets (λ w. find (is_product id) w.db.products))
    if is_empty changes || unchanged (apply_changes changes current) current
        then pure current
        else do
          now ← ask env.clock
          let product = record (apply_changes (columns changes) current) { updated_at = now }
          translating translate (write (without product.id) product)
          pure product

  -- INSERT ... ON CONFLICT (telegram_id) DO UPDATE
  unfoldable pub upsert : UserDraft → Run User
  upsert draft = do
    raise_if (draft.telegram_id == 0) (integrity telegram_id_positive)
    now ← ask env.clock
    before ← gets (λ w. find (is_user draft.telegram_id) w.db.users)
    let user : User = record {
      telegram_id = draft.telegram_id;
      username = draft.username;
      first_name = draft.first_name;
      language_code = draft.language_code;
      created_at = elim before [ none ↦ now | some u ↦ u.created_at ];
      last_seen_at = now;
    }
    λ w. (
      ok user,
      record w {
        db = record (w.db) {
          users = user ∷ select (λ u. not (u.telegram_id == draft.telegram_id)) w.db.users;
        };
      },
    )
