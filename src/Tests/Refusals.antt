-- ===== src/Tests/Refusals.antt =====
-- The theorem on Telegram's refusals, at a buyer who blocks the bot during flood control.
use tg_bot.Base.{
  ℕ, zero, suc, ◌+◌, ◌*◌, ◌<◌, ◌≡◌, refl, String, Option, none, some, [], ◌==◌, if◌then◌else◌,
  arith, inl,
}
use tg_bot.Domain.{DeliveryResult, failed}
use tg_bot.Domain.Slug.{codes}
use tg_bot.World.{Env, ok}
use tg_bot.Services.DeliveryService.{send_with_retries}
use tg_bot.Bot.Gateway.{Failure, retry_after, bad_request, gateway_send}
use tg_bot.Delivery.Refusals.{here, there, IsHoped, send_with_retries-final}
use tg_bot.Tests.Model.{shop_env}
use tg_bot.Tests.Settling.{message, third}

abbrev digit : ℕ → String
digit n = "3"

abbrev raised : ℕ → Option Failure
raised t =
    if t == 3
    then some (retry_after 3)
    else if t == 5
    then some (bad_request "bot was blocked by the user")
    else none

abbrev blocked_env : Env
blocked_env = record shop_env { send = λ n m. gateway_send codes digit (raised n) }

waited : (j : ℕ) → j < 1 → IsHoped codes digit blocked_env message raised (raised (3 + 2 * j))
waited zero h = λ hopeless. hopeless
waited (suc j) h = absurd (omega arith)

send_with_retries-final_example :
    (r : DeliveryResult) × ((send_with_retries blocked_env message third).0 ≡ ok r)
    × (r.attempts ≡ 2)
    × (r.status ≡ failed)
send_with_retries-final_example =
    send_with_retries-final codes digit blocked_env message raised (λ t. refl) 1 third (omega arith)
      waited (inl (there (there (here ([], codes " by the user", refl)))))
