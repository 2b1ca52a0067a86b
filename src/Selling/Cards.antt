-- ===== src/Selling/Cards.antt =====
-- The card that a deep link of backend/app/bot/handlers/start.py names, for a visitor who owns nothing.
use tg_bot.Base.{
  ℕ, ◌≡◌, refl, true, false, Bool, String, Option, none, some, or_else, find, select, List, [], ◌∷◌,
  map, all_of, if◌then◌else◌, arith, inl, inr, Bool-cases, Option-cases, All, eq_iff, ◌==◌,
}
use tg_bot.Domain.{
  Uuid, Product, Purchase, PaymentProvider, ProductCard, PaymentOption, grants, available_providers,
  supports, price_for, currency_of,
}
use tg_bot.Domain.Slug.{is_valid_slug}
use tg_bot.World.{Db, World, ok, ◌>>=◌, one_or_none}
use tg_bot.Repository.PurchaseTable.{matches_owner}
use tg_bot.Repository.CatalogTable.{matches_slug}
use tg_bot.Services.PurchaseService.{options, price}
use tg_bot.Bot.Start.{Answer, card_not_found, card_unavailable, card_message}
use tg_bot.Sound.Rows.{ProductsApart, AreProductsApart}

-- A slug names one product at most.
other_slug :
    (slug : String) (p : Product) (ps : List Product)
    → All (ProductsApart p) ps
    → matches_slug slug false p ≡ true
    → select (matches_slug slug false) ps ≡ []
other_slug slug p [] h e = refl
other_slug slug p (q ∷ ps) h e =
    let diff = h.0.slugs in
    ground (
      arith,
      eq_iff p.slug slug,
      eq_iff q.slug slug,
      eq_iff p.slug q.slug,
      other_slug slug p ps h.1 e,
    )

pub slug_once :
    (slug : String) (ps : List Product)
    → AreProductsApart ps
    → one_or_none (select (matches_slug slug false) ps) ≡ ok (find (matches_slug slug false) ps)
slug_once slug [] h = refl
slug_once slug (p ∷ ps) h = elim (Bool-cases (matches_slug slug false p)) [
  | inl hit ↦ rw (hit, other_slug slug p ps h.0 hit)
  | inr miss ↦ rw miss (slug_once slug ps h.1)
]

-- The buttons of a card: every way to pay that the product has a price for, at that price.
abbrev pub option_of : Product → PaymentProvider → PaymentOption
option_of p provider = record {
  provider = provider;
  amount = or_else (price_for p provider) 0;
  currency = currency_of provider;
}

pub options-map :
    (p : Product) (ps : List PaymentProvider) (w : World)
    → all_of (supports p) ps ≡ true
    → options p ps w ≡ (ok (map (option_of p) ps), w)
unfolding options ◌>>=◌
options-map p [] w h = refl
options-map p (provider ∷ ps) w h = elim (Option-cases (price_for p provider)) [
  | inl missing ↦ let bad = (rw missing at h) in absurd (cc bad)
  | inr (n, e) ↦ rw (price, e) (rw (options-map p ps w (rw e at h)))
]

pub all_available : (p : Product) → all_of (supports p) (available_providers p) ≡ true
unfolding available_providers
all_available p = ground arith

-- the card of a product for a buyer who does not own it
abbrev pub card_of : Product → ProductCard
card_of p = record {
  product = p;
  options = map (option_of p) (available_providers p);
  owned_purchase = none;
}

-- no purchase of this buyer grants access
abbrev pub owns_nothing : ℕ → List Purchase → Bool
owns_nothing user ps =
    all_of (λ p. if p.user_id == user then (if grants p then false else true) else true) ps

pub not_owner :
    (user : ℕ) (product : Uuid) (ps : List Purchase)
    → owns_nothing user ps ≡ true
    → find (matches_owner user product) ps ≡ none
not_owner user product [] h = refl
not_owner user product (p ∷ ps) h = ground (arith, not_owner user product ps)

-- The message for a link: a note for no product, another for one off sale, or its card.
abbrev pub shown : Option Product → Answer
shown none = card_not_found
shown (some p) = if p.is_active then card_message (card_of p) else card_unavailable

-- the world after a look at a card: the visitor's row, and the questions that were asked
pub record Looked (w w' : World) : Type 0 where
  pub products : w'.db.products ≡ w.db.products
  pub purchases : w'.db.purchases ≡ w.db.purchases
  pub invoices : w'.invoices ≡ w.invoices
  pub outbox : w'.outbox ≡ w.outbox

-- the product that a link names
abbrev pub linked : String → Db → Option Product
linked slug db = if is_valid_slug slug then find (matches_slug slug false) db.products else none
