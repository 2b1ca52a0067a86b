-- ===== src/Selling/Opening.antt =====
-- `handle_deep_link` of backend/app/bot/handlers/start.py, for a visitor who owns nothing.
use tg_bot.Base.{ℕ, ◌+◌, ◌≡◌, none, some, not, find, select, List, [], ◌∷◌, ◌==◌}
use tg_bot.Domain.{User, UserDraft}
use tg_bot.World.{Env, World, Result, ok, is_user, then_on}
use tg_bot.Repository.CatalogTable
use tg_bot.Bot.Start.{Answer}

module _ (env : Env) (telegram : ℕ → Answer → Result (Unit {0})) where
  -- the visitor's row after the look
  abbrev visitor : UserDraft → World → User
  visitor profile w = record {
    telegram_id = profile.telegram_id;
    username = profile.username;
    first_name = profile.first_name;
    language_code = profile.language_code;
    created_at = elim (find (is_user profile.telegram_id) w.db.users) [
      | none ↦ env.clock w.tick
      | some u ↦ u.created_at
    ];
    last_seen_at = env.clock w.tick;
  }

  abbrev remembered : UserDraft → World → World
  remembered profile w = record w {
    tick = w.tick + 1;
    db = record (w.db) {
      users =
          visitor profile w ∷ select (λ u. not (u.telegram_id == profile.telegram_id)) w.db.users;
    };
  }

  -- one message was tried, at the question of a number, and how that went is how the handler ends
  abbrev pub Tried : Answer → Result (List Answer) → Type 0
  Tried a r = (t : ℕ) × (r ≡ then_on (telegram t a) (λ _. ok (a ∷ [])))
