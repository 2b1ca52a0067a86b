-- ===== src/Tests/Buying.antt =====
-- The theorems on what a buyer may pay for and on what a payment brings, at Ann's open invoice.
use Prim.Native.Nat.{zero, suc}
use tg_bot.Base.{ℕ, ◌+◌, ◌<◌, ◌≡◌, ◌↔◌, refl, String, true, some, none, [], ◌∷◌, find, arith}
use tg_bot.Errors.{duplicate_purchase}
use tg_bot.Domain.{Uuid, PaymentProvider, stars, paid, Purchase}
use tg_bot.Domain.Slug.{matches_slug_pattern}
use tg_bot.Services.PurchaseService.{confirm_payment}
use tg_bot.Sound.Rows.{IsSound}
use tg_bot.Payment.Twice.{confirm_payment-owned}
use tg_bot.World.{World, ok, err, accepted}
use tg_bot.Repository.PurchaseTable.{
  matches_invoice, matches_charge, matches_owner, get_by_external_id, get_by_charge_id,
  find_access_granting,
}
use tg_bot.Services.DeliveryService.{ended}
use tg_bot.Services.CheckoutService.{settle_payment}
use tg_bot.Bot.Handlers.{Reply, pre_checkout_ok, handle_pre_checkout}
use tg_bot.Sound.Lookup.{lookups-find}
use tg_bot.Selling.Precheckout.{MayPay, handle_pre_checkout-MayPay}
use tg_bot.Payment.Paying.{IsPayable}
use tg_bot.Payment.Reaching.{link_message, settle_payment-sent}
use tg_bot.Delivery.Retries.{answer_to, is_transient}
use tg_bot.Tests.Model.{shop_env, shop_env-Enforces, guide, ann, order, shop}
use tg_bot.Tests.Soundness.{shop-IsSound}

order-IsPayable : IsPayable shop.db.purchases order (some "ch1")
order-IsPayable = record { unpaid = refl; kept = refl; not_owned = refl; fresh = λ c e. refl }

flood_once :
    (j : ℕ)
    → j < 1
    → is_transient shop_env
        (link_message shop_env order guide ann)
        (answer_to shop_env (link_message shop_env order guide ann) (shop.tick + 1 + 1 + 1) j)
      ≡ true
flood_once zero h = refl
flood_once (suc j) h = absurd (omega arith)

settle_payment-sent_example :
    (w' : World) × (settle_payment shop_env stars "inv" (some "ch1") none shop
      ≡ (ok (ended shop_env (link_message shop_env order guide ann) 2 accepted), w'))
    × (w'.outbox ≡ link_message shop_env order guide ann ∷ shop.outbox)
settle_payment-sent_example =
    settle_payment-sent shop_env shop_env-Enforces stars "inv" (some "ch1") shop order guide ann 1
      shop-IsSound refl order-IsPayable refl refl refl refl (omega arith) flood_once refl

handle_pre_checkout-MayPay_example :
    (r : Reply) × (handle_pre_checkout "inv" shop ≡ (ok r, shop))
    × ((r ≡ pre_checkout_ok) ↔ MayPay "inv" shop.db)
handle_pre_checkout-MayPay_example = handle_pre_checkout-MayPay "inv" shop shop-IsSound

lookups-find_example :
    ((provider : PaymentProvider) (ext : String)
      → get_by_external_id provider ext shop
        ≡ (ok (find (matches_invoice provider ext) shop.db.purchases), shop))
    × ((charge : String)
        → get_by_charge_id charge shop
          ≡ (ok (find (matches_charge charge) shop.db.purchases), shop))
    × ((user : ℕ) (product : Uuid)
        → find_access_granting user product shop
          ≡ (ok (find (matches_owner user product) shop.db.purchases), shop))
lookups-find_example = lookups-find shop shop-IsSound

-- Ann paid for the guide by another invoice.
abbrev other : Purchase
other = record order { id = 3; external_id = "inv2"; status = paid; paid_at = some 9 }

abbrev twice : World
twice = record shop { db = record (shop.db) { purchases = order ∷ other ∷ [] } }

twice-IsSound : IsSound twice.db
unfolding matches_slug_pattern
twice-IsSound = record {
  purchases = (
    record { amount = omega arith; paid = refl; delivered = refl; buyer = refl; product = refl },
    (
      record { amount = omega arith; paid = refl; delivered = refl; buyer = refl; product = refl },
      tt,
    ),
  );
  apart = ((record { ids = refl; invoices = refl; owners = refl; charges = refl }, tt), (tt, tt));
  products = (record { slug = refl; priced = refl; stars = refl; usdt = refl }, tt);
  products_apart = (tt, tt);
}

confirm_payment-owned_example :
    confirm_payment shop_env stars "inv" (some "ch1") none twice
    ≡ (err duplicate_purchase, record twice { tick = 0 + 1 + 1 })
confirm_payment-owned_example =
    confirm_payment-owned shop_env shop_env-Enforces stars "inv" (some "ch1") twice order other
      twice-IsSound refl refl refl refl (λ c e. refl) refl
