-- ===== src/Tests/Soundness.antt =====
-- The theorems on sequences of requests, at a shop with one product, one buyer and one open invoice.
use tg_bot.Base.{refl, none, some, List, [], ◌∷◌, find, arith}
use tg_bot.Domain.{stars}
use tg_bot.Domain.Slug.{matches_slug_pattern}
use tg_bot.World.{has_id}
use tg_bot.Requests.{Request, serve}
use tg_bot.Sound.Rows.{IsSound}
use tg_bot.Sound.Evolution.{Later}
use tg_bot.Sound.Requests.{serve-IsSound, serve-Later}
use tg_bot.Tests.Model.{shop_env, shop_env-Enforces, order, shop}

pub shop-IsSound : IsSound shop.db
unfolding matches_slug_pattern
shop-IsSound = record {
  purchases = (
    record { amount = omega arith; paid = refl; delivered = refl; buyer = refl; product = refl },
    tt,
  );
  apart = (tt, tt);
  products = (record { slug = refl; priced = refl; stars = refl; usdt = refl }, tt);
  products_apart = (tt, tt);
}

abbrev script : List Request
script = Request.settle stars "inv" (some "ch1") none ∷ Request.expire_stale none ∷ []

serve-IsSound_example : IsSound (serve shop_env script shop).db
serve-IsSound_example = serve-IsSound shop_env shop_env-Enforces script shop shop-IsSound

serve-Later_example : Later order (find (has_id 2) (serve shop_env script shop).db.purchases)
serve-Later_example = serve-Later shop_env shop_env-Enforces script shop 2 order refl
