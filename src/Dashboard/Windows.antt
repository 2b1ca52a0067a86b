-- ===== src/Dashboard/Windows.antt =====
-- The windows of the dashboard lie in one another, and so do their sums.
use tg_bot.Base.{
  String, ℕ, ◌≤◌, ◌-◌, ◌*◌, ◌/◌, ◌≡◌, ◌&&◌, refl, ap, Bool, true, Option, none, some, List, [], ◌∷◌,
  length, select, arith, inl, inr, Bool-cases,
}
use tg_bot.Domain.{DateTime, Currency, xtr, usdt, Purchase, grants}
use tg_bot.World.{Db}
use tg_bot.Dashboard.Periods.{
  StatsPeriod, today, week, month, all, day, week_days, month_days, midnight, start,
}
use tg_bot.Dashboard.Sums.{
  in_window, amount_in, paid_from, revenue, RevenueSummary, moment, overview,
}

-- Every purchase of one window is one of the other.
abbrev Wider : (Purchase → Bool) → (Purchase → Bool) → Type 0
Wider f g = (p : Purchase) → f p ≡ true → g p ≡ true

module _ (f g : Purchase → Bool) (wider : Wider f g) where
  length-wider : (ps : List Purchase) → length (select f ps) ≤ length (select g ps)
  length-wider [] = omega arith
  length-wider (p ∷ ps) = ground (arith, wider p, length-wider ps)

  amount-wider :
      (currency : Currency) (ps : List Purchase)
      → amount_in currency (select f ps) ≤ amount_in currency (select g ps)
  unfolding amount_in
  amount-wider currency [] = omega arith
  amount-wider currency (p ∷ ps) = ground (arith, wider p, amount-wider currency ps)

-- the summary of a wider window is no smaller in any number
pub record IsWithin (a b : RevenueSummary) : Type 0 where
  pub count : a.purchases_count ≤ b.purchases_count
  pub stars : a.stars_amount ≤ b.stars_amount
  pub usdt : a.usdt_amount ≤ b.usdt_amount

revenue-IsWithin :
    (a b : StatsPeriod) (now : DateTime) (db : Db)
    → Wider (in_window a now) (in_window b now)
    → IsWithin (revenue a now db) (revenue b now db)
unfolding revenue
revenue-IsWithin a b now db wider =
    let more = amount-wider (in_window a now) (in_window b now) wider xtr db.purchases in
    record {
      count = length-wider (in_window a now) (in_window b now) wider db.purchases;
      stars = omega (arith, more);
      usdt = amount-wider (in_window a now) (in_window b now) wider usdt db.purchases;
    }

-- A later bound lets fewer payments through.
paid_from-earlier :
    (a b : ℕ) (t : Option DateTime)
    → b ≤ a
    → paid_from (some a) t ≡ true
    → paid_from (some b) t ≡ true
paid_from-earlier a b none le h = cc
paid_from-earlier a b (some t) le h = ground arith

today-week : (now : DateTime) → Wider (in_window today now) (in_window week now)
unfolding in_window start
today-week now p h = elim (Bool-cases (grants p)) [
  | inl owned ↦ rw owned (paid_from-earlier _ _ p.paid_at (omega arith) (rw owned at h))
  | inr other ↦ let bad = (rw other at h) in absurd (cc bad)
]

week-month : (now : DateTime) → Wider (in_window week now) (in_window month now)
unfolding in_window start
week-month now p h = elim (Bool-cases (grants p)) [
  | inl owned ↦ rw owned (paid_from-earlier _ _ p.paid_at (omega arith) (rw owned at h))
  | inr other ↦ let bad = (rw other at h) in absurd (cc bad)
]

month-all : (now : DateTime) → Wider (in_window month now) (in_window all now)
unfolding in_window start
month-all now p h = ground arith

-- Two moments of one day have the same windows.
start-day :
    (period : StatsPeriod) (a b : DateTime)
    → midnight a ≡ midnight b
    → start period a ≡ start period b
unfolding start
start-day today a b h = ap some h
start-day week a b h = ap (λ (m : ℕ). some (m - (week_days - 1) * day)) h
start-day month a b h = ap (λ (m : ℕ). some (m - (month_days - 1) * day)) h
start-day all a b h = refl

revenue-day :
    (period : StatsPeriod) (a b : DateTime) (db : Db)
    → midnight a ≡ midnight b
    → revenue period a db ≡ revenue period b db
unfolding revenue in_window
revenue-day period a b db h = ap summed (start-day period a b h)
  where
    summed : Option DateTime → RevenueSummary
    summed from =
        let rows = select (λ (p : Purchase). grants p && paid_from from p.paid_at) db.purchases in
        record {
          period = period;
          purchases_count = length rows;
          stars_amount = amount_in xtr rows / 1000000;
          usdt_amount = amount_in usdt rows;
        }

-- On the dashboard, for a given moment or where the clock is read on one day in UTC only, the sums of
-- today lie within those of the week, these within those of the month, and these within those of all
-- time: in the number of purchases, in Stars and in USDT.
pub overview-IsWithin :
    (text_le : String → String → Bool) (now : Option DateTime) (clock : ℕ → DateTime)
    (top recent : ℕ) (db : Db)
    → ((i : ℕ) → midnight (moment now clock i) ≡ midnight (moment now clock 0))
    → (let seen = overview text_le now clock top recent db in
        IsWithin seen.today seen.week
        × IsWithin seen.week seen.month
        × IsWithin seen.month seen.total)
unfolding overview
overview-IsWithin text_le now clock top recent db day =
    let at = moment now clock 0 in
    rw
      (
        revenue-day week (moment now clock 1) at db (day 1),
        revenue-day month (moment now clock 2) at db (day 2),
        revenue-day all (moment now clock 3) at db (day 3),
      )
      (
        revenue-IsWithin today week at db (today-week at),
        revenue-IsWithin week month at db (week-month at),
        revenue-IsWithin month all at db (month-all at),
      )
