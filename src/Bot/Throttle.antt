-- ===== src/Bot/Throttle.antt =====
-- `ThrottleMiddleware` of backend/app/bot/middlewares.py, which create_dispatcher of
-- backend/app/bot/factory.py puts before the handlers of messages and of buttons.
use tg_bot.Base.{ℕ, Option, none, some, ◌==◌, if◌then◌else◌}
use tg_bot.Domain.{throttle_key}
use tg_bot.World.{Env, Run, ◌>>=◌, pure, raise, catching, locked}
use tg_bot.Bot.Handlers.{is_lock_busy}

module _ (env : Env) {A : Type 0} where
  abbrev pub handled : Run A → Run (Option A)
  handled handler = handler >>= λ answer. pure (some answer)

  abbrev pub one_at_a_time : ℕ → Run A → Run (Option A)
  one_at_a_time user handler =
      catching (λ e. if is_lock_busy e then pure none else raise e)
        (locked env (throttle_key user) (handled handler))

  -- none is the answer that the update was throttled
  unfoldable pub throttled : ℕ → Option ℕ → Run A → Run (Option A)
  throttled window none handler = handled handler
  throttled window (some user) handler =
      if window == 0 then handled handler else one_at_a_time user handler
