-- ===== src/Tests/Searching.antt =====
-- The theorems on listings and searches, at Ann's order for the guide.
use tg_bot.Base.{
  ℕ, ◌+◌, ◌*◌, ◌-◌, ◌≤◌, ◌<◌, ◌≡◌, ◌↔◌, Bool, true, ◌&&◌, Option, none, some, List, [], ◌∷◌, length,
  drop, leb, ◌==◌, arith, if◌then◌else◌,
}
use tg_bot.World.{ok, then_on}
use tg_bot.Domain.{pending}
use tg_bot.Domain.Slug.{codes}
use tg_bot.Search.Like.{like_pattern, ilike}
use tg_bot.Search.Patterns.{Occurs, ilike-like_pattern}
use tg_bot.Search.Pages.{PageRequest, PurchaseFilters, slice, has_more, walk, walk_all}
use tg_bot.Search.Purchases.{Texts, search}
use tg_bot.Search.Union.{direct_conditions, found, search-direct}
use tg_bot.Tests.Model.{shop}
use tg_bot.Tests.Soundness.{shop-IsSound}

abbrev plain : ℕ → ℕ → Bool
plain a b = a == b

ilike-like_pattern_example :
    (ilike plain (like_pattern (codes "5%")) (codes "5% off") ≡ true)
    ↔ Occurs plain (codes "5%") (codes "5% off")
ilike-like_pattern_example = ilike-like_pattern plain (codes "5%") (codes "5% off")

abbrev numbers : List ℕ
numbers = 4 ∷ 3 ∷ 2 ∷ 1 ∷ []

walk_all_example :
    (walk 5 3 0 numbers ≡ numbers)
    × ((offset : ℕ)
        → (length (slice (record { limit = 3; offset = offset }) (length numbers) numbers).items
            ≤ 3)
          × ((has_more (slice (record { limit = 3; offset = offset }) (length numbers) numbers)
                ≡ true)
              ↔ (0 < length (drop (offset + 3) numbers))))
walk_all_example = walk_all 3 numbers (omega arith)

abbrev value_of : ℕ → List ℕ → Option ℕ
value_of n [] = some n
value_of n (c ∷ cs) =
    let rest = value_of (n * 10 + (c - b'0')) cs in if leb b'0' c && leb c b'9' then rest else none

abbrev ascii : Texts
ascii = record { alike = plain; is_digit = λ c. leb b'0' c && leb c b'9'; to_int = value_of 0 }

abbrev filters : PurchaseFilters
filters = record { search = some " 7"; statuses = pending ∷ [] }

abbrev first_page : PageRequest
first_page = record { limit = 20; offset = 0 }

search-direct_example :
    search ascii shop.db filters first_page
    ≡ then_on (direct_conditions ascii shop.db filters) (λ test.
      ok (slice first_page (length (found ascii shop.db test)) (found ascii shop.db test)))
search-direct_example = search-direct ascii shop.db filters first_page shop-IsSound
