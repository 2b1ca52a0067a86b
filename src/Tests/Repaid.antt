-- ===== src/Tests/Repaid.antt =====
-- The theorem on refunded invoices, at Ann's order after its refund.
use tg_bot.Base.{◌≡◌, refl, some, [], ◌∷◌, arith}
use tg_bot.Errors.{conflict}
use tg_bot.Domain.{refunded, Purchase}
use tg_bot.Domain.Slug.{matches_slug_pattern}
use tg_bot.World.{World, ok, err}
use tg_bot.Bot.Handlers.{pre_checkout_ok, handle_pre_checkout, handle_successful_payment}
use tg_bot.Sound.Rows.{IsSound}
use tg_bot.Payment.Repaid.{asked_once, refunded-charged}
use tg_bot.Tests.Model.{shop_env, order, guide, shop}

abbrev returned : Purchase
returned = record order {
  status = refunded;
  paid_at = some 1000000000000;
  telegram_charge_id = some "ch0";
}

abbrev returned_shop : World
returned_shop = record shop { db = record (shop.db) { purchases = returned ∷ [] } }

returned_shop-IsSound : IsSound returned_shop.db
unfolding matches_slug_pattern
returned_shop-IsSound = record {
  purchases = (
    record { amount = omega arith; paid = refl; delivered = refl; buyer = refl; product = refl },
    tt,
  );
  apart = (tt, tt);
  products = (record { slug = refl; priced = refl; stars = refl; usdt = refl }, tt);
  products_apart = (tt, tt);
}

refunded-charged_example :
    (handle_pre_checkout "inv" returned_shop ≡ (ok pre_checkout_ok, returned_shop))
    × (handle_successful_payment shop_env "inv" "ch1" returned_shop
        ≡ (err conflict, asked_once returned_shop))
refunded-charged_example =
    refunded-charged shop_env "inv" "ch1" returned_shop returned guide returned_shop-IsSound refl
      refl refl refl refl refl
