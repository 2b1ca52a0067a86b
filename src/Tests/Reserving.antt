-- ===== src/Tests/Reserving.antt =====
-- The theorems on reserving and expiring, at the shop: Bob asks for the guide, and Ann's invoice expires.
use tg_bot.Base.{arith, ℕ, ◌+◌, ◌≡◌, refl, none, [], ◌∷◌, find, select, length}
use tg_bot.Domain.{stars, User}
use tg_bot.World.{World, ok}
use tg_bot.Repository.PurchaseTable.{stale, expire_pending}
use tg_bot.Services.PurchaseService.{start_purchase}
use tg_bot.Sound.Rows.{IsSound}
use tg_bot.Domain.Slug.{matches_slug_pattern}
use tg_bot.Selling.Reserving.{IsReservable, new_row, start_purchase-reserved}
use tg_bot.Selling.Expiring.{Expired, awaiting, expire_pending-count}
use tg_bot.Tests.Model.{shop_env, shop_env-Enforces, guide, ann, shop}

abbrev bob : User
bob = record ann { telegram_id = 8 }

abbrev busier : World
busier = record shop { db = record (shop.db) { users = bob ∷ ann ∷ [] } }

busier-IsSound : IsSound busier.db
unfolding matches_slug_pattern
busier-IsSound = record {
  purchases = (
    record { amount = omega arith; paid = refl; delivered = refl; buyer = refl; product = refl },
    tt,
  );
  apart = (tt, tt);
  products = (record { slug = refl; priced = refl; stars = refl; usdt = refl }, tt);
  products_apart = (tt, tt);
}

bob-IsReservable : IsReservable busier.db 8 1 stars "new" 50000000 101
bob-IsReservable = record {
  buyer = bob;
  known = refl;
  product = guide;
  exists = refl;
  on_sale = refl;
  priced = refl;
  not_owned = refl;
  fresh_id = refl;
  fresh_invoice = refl;
}

start_purchase-reserved_example : start_purchase shop_env 8 1 stars "new" busier ≡ (
  ok (new_row 8 1 stars "new" 50000000 101 1000002000000),
  record busier {
    tick = 4;
    db = record (busier.db) {
      purchases = new_row 8 1 stars "new" 50000000 101 1000002000000 ∷ busier.db.purchases;
    };
  },
)
start_purchase-reserved_example =
    start_purchase-reserved shop_env shop_env-Enforces busier 8 1 stars "new" 50000000
      busier-IsSound bob-IsReservable refl

expire_pending-count_example :
    (n : ℕ) × ((expire_pending 2000000000000 shop).0 ≡ ok n)
    × Expired 2000000000000 shop.db.purchases (expire_pending 2000000000000 shop).1.db.purchases
    × (length (select awaiting shop.db.purchases)
        ≡ n + length (select awaiting (expire_pending 2000000000000 shop).1.db.purchases))
    × (find (stale 2000000000000) (expire_pending 2000000000000 shop).1.db.purchases ≡ none)
expire_pending-count_example = expire_pending-count 2000000000000 shop
