-- ===== src/Tests/Model.antt =====
-- An outside world for the examples: a database that blames the first constraint that fails, a clock
-- that advances by a second, locks that are free, and a Telegram that fails once, then accepts.
use tg_bot.Base.{
  ltb, length, ◌+◌, ◌*◌, ◌≡◌, Bool, true, false, not, none, some, List, [], ◌∷◌, find, find-test,
  ◌==◌, if◌then◌else◌, arith,
}
use tg_bot.Errors.{
  Constraint, pk_products, pk_purchases, uq_products_slug, slug_format, price_present,
  price_stars_positive, price_usdt_positive, telegram_id_positive,
  uq_purchases_provider_external_id, uq_purchases_user_product_paid,
  uq_purchases_telegram_charge_id, amount_positive, paid_at_present, delivery_complete,
  fk_purchases_user_id, fk_purchases_product_id,
}
use tg_bot.Domain.{stars, xtr, PurchaseStatus, Product, User, Purchase, PaymentState}
use tg_bot.Domain.Slug.{codes}
use tg_bot.World.{Env, Enforces, World, ok, accepted, transient, purchase_holds, product_holds}

abbrev constraints : List Constraint
constraints =
    pk_products ∷ pk_purchases ∷ uq_products_slug ∷ slug_format ∷ price_present
    ∷ price_stars_positive ∷ price_usdt_positive ∷ telegram_id_positive
    ∷ uq_purchases_provider_external_id ∷ uq_purchases_user_product_paid
    ∷ uq_purchases_telegram_charge_id ∷ amount_positive ∷ paid_at_present ∷ delivery_complete
    ∷ fk_purchases_user_id ∷ fk_purchases_product_id ∷ []

-- the list names every constraint
data Listed (c : Constraint) : List Constraint → Type 0 where
  here : (xs : List Constraint) → Listed c (c ∷ xs)
  there : (x : Constraint) (xs : List Constraint) → Listed c xs → Listed c (x ∷ xs)

not_found :
    (t : Constraint → Bool) (c : Constraint) (xs : List Constraint)
    → Listed c xs
    → find t xs ≡ none
    → t c ≡ false
not_found t c xs (here ys) e = ground arith
not_found t c xs (there x ys l) e = not_found t c ys l (ground arith)

every : (c : Constraint) → Listed c constraints
every pk_products = here _
every _ = search (here, there) depth 20

abbrev pub shop_env : Env
shop_env = record {
  delivery = record {
    max_attempts = 4;
    initial_backoff = 1000000;
    max_backoff = 20000000;
    backoff_multiplier = 2000000;
    jitter_ratio = 250000;
  };
  invoice_ttl = 1800000000;
  reconciliation_batch_size = 100;
  clock = λ n. 1000000000000 + n * 1000000;
  uuid4 = λ n. 100 + n;
  hex = λ n. "d41d8cd98f00b204e9800998ecf8427e";
  jitter = λ n. 500000;
  busy = λ n key. false;
  send = λ n m. if n == 3 then transient "flood" (some 3000000) else accepted;
  send_invoice = λ n r. ok tt;
  create_invoice = λ n r. ok (record { external_id = "IV1"; pay_url = some "https://t.me/x" });
  fetch_states = λ n ids. ok (("IV1", PaymentState.paid) ∷ []);
  purchase_violation = λ db others p. find (λ c. not (purchase_holds c db others p)) constraints;
  unstorable = λ p. ltb 255 (length (codes p.title));
  product_violation = λ others p. find (λ c. not (product_holds c others p)) constraints;
}

pub shop_env-Enforces : Enforces shop_env
shop_env-Enforces = record {
  purchase_accepted = λ db others p c e.
      let h = not_found (λ d. not (purchase_holds d db others p)) c constraints (every c) e in
      ground arith;
  purchase_blamed = λ db others p c e.
      let h = find-test (λ d. not (purchase_holds d db others p)) constraints c e in ground arith;
  product_accepted = λ others p c e.
      let h = not_found (λ d. not (product_holds d others p)) c constraints (every c) e in
      ground arith;
  product_blamed = λ others p c e.
      let h = find-test (λ d. not (product_holds d others p)) constraints c e in ground arith;
}

abbrev pub guide : Product
guide = record {
  id = 1;
  slug = "guide";
  title = "Guide";
  description = "";
  photo_file_id = none;
  delivery_url = "https://example.com/g";
  price_stars = some 50;
  price_usdt = none;
  is_active = true;
  created_at = 1;
  updated_at = 1;
}

abbrev pub ann : User
ann = record {
  telegram_id = 7;
  username = none;
  first_name = some "Ann";
  language_code = none;
  created_at = 1;
  last_seen_at = 1;
}

-- Ann's unpaid invoice for the guide
abbrev pub order : Purchase
order = record {
  id = 2;
  user_id = 7;
  product_id = 1;
  provider = stars;
  status = PurchaseStatus.pending;
  amount = 50000000;
  currency = xtr;
  external_id = "inv";
  telegram_charge_id = none;
  delivered_url = none;
  created_at = 5;
  paid_at = none;
  delivered_at = none;
}

abbrev pub shop : World
shop = record {
  db = record { products = guide ∷ []; users = ann ∷ []; purchases = order ∷ [] };
  tick = 0;
  outbox = [];
  invoices = [];
  sleeps = [];
}
