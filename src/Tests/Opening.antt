-- ===== src/Tests/Opening.antt =====
-- The theorem on deep links, at Ann's first look at the guide.
use tg_bot.Base.{ℕ, some}
use tg_bot.Domain.{UserDraft}
use tg_bot.World.{Result, ok}
use tg_bot.Bot.Start.{Answer}

abbrev ann_profile : UserDraft
ann_profile = record {
  telegram_id = 7;
  username = some "ann";
  first_name = some "Ann";
  language_code = some "en";
}

-- Telegram takes every message.
abbrev taken : ℕ → Answer → Result (Unit {0})
taken t a = ok tt
