-- ===== src/Tests/Dashboard.antt =====
-- The theorems on the dashboard, at a shop where Ann paid for the guide.
use tg_bot.Base.{◌+◌, ◌≤◌, ◌≡◌, refl, Bool, true, String, none, some, ℕ, [], ◌∷◌, length, arith}
use tg_bot.Domain.{paid, Purchase}
use tg_bot.Domain.Slug.{matches_slug_pattern}
use tg_bot.World.{World}
use tg_bot.Sound.Rows.{IsSound}
use tg_bot.Dashboard.Periods.{StatsPeriod}
use tg_bot.Dashboard.Sums.{overview, top_products, revenue}
use tg_bot.Dashboard.Windows.{IsWithin, overview-IsWithin}
use tg_bot.Dashboard.Groups.{sales, Descending, top_products-sales}
use tg_bot.Tests.Model.{order, shop}

abbrev sold : Purchase
sold = record order { status = paid; paid_at = some 3000000000000 }

abbrev sold_shop : World
sold_shop = record shop { db = record (shop.db) { purchases = sold ∷ [] } }

sold_shop-IsSound : IsSound sold_shop.db
unfolding matches_slug_pattern
sold_shop-IsSound = record {
  purchases = (
    record { amount = omega arith; paid = refl; delivered = refl; buyer = refl; product = refl },
    tt,
  );
  apart = (tt, tt);
  products = (record { slug = refl; priced = refl; stars = refl; usdt = refl }, tt);
  products_apart = (tt, tt);
}

abbrev any_order : String → String → Bool
any_order a b = true

-- a dashboard that is read at noon
abbrev noon : ℕ → ℕ
noon i = 3067200000000

overview-IsWithin_example :
    let seen = overview any_order none noon 10 10 sold_shop.db in
    IsWithin seen.today seen.week × IsWithin seen.week seen.month × IsWithin seen.month seen.total
overview-IsWithin_example = overview-IsWithin any_order none noon 10 10 sold_shop.db (λ i. refl)

top_products-sales_example :
    (length (top_products any_order StatsPeriod.month 10 3000000000000 sold_shop.db) ≤ 10)
    × Descending (top_products any_order StatsPeriod.month 10 3000000000000 sold_shop.db)
    × (sales (
          top_products any_order StatsPeriod.month
            (length sold_shop.db.products + 9)
            3000000000000
            sold_shop.db)
        ≡ (revenue StatsPeriod.month 3000000000000 sold_shop.db).purchases_count)
top_products-sales_example =
    top_products-sales any_order StatsPeriod.month 10 9 3000000000000 sold_shop.db sold_shop-IsSound
