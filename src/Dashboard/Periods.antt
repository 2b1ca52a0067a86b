-- ===== src/Dashboard/Periods.antt =====
-- `StatsPeriod.start` of backend/app/domain/stats.py. A moment counts microseconds from a midnight
-- in UTC that lies more than a month before any purchase.
use tg_bot.Base.{ℕ, ◌-◌, ◌*◌, ◌%◌, Option, none, some}
use tg_bot.Domain.{DateTime}

abbrev pub week_days : ℕ
week_days = 7

abbrev pub month_days : ℕ
month_days = 30

abbrev pub day : ℕ
day = 86400000000

pub data StatsPeriod : Type 0 where
  today week month all : StatsPeriod

-- `moment.replace(hour=0, minute=0, second=0, microsecond=0)`
abbrev pub midnight : DateTime → DateTime
midnight moment = moment - moment % day

-- the inclusive lower bound of the window
unfoldable pub start : StatsPeriod → DateTime → Option DateTime
start today moment = some (midnight moment)
start week moment = some (midnight moment - (week_days - 1) * day)
start month moment = some (midnight moment - (month_days - 1) * day)
start all moment = none
