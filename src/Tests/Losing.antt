-- ===== src/Tests/Losing.antt =====
-- The theorem on throttled payments, at Ann's order while another update of hers is handled.
use tg_bot.Base.{◌≡◌, refl, true, false, none, some}
use tg_bot.Domain.{throttle_key, PurchaseStatus}
use tg_bot.Domain.Payments.{VerificationOutcome}
use tg_bot.World.{Env, ok}
use tg_bot.Services.CheckoutService.{report, verify_payment}
use tg_bot.Bot.Handlers.{handle_successful_payment}
use tg_bot.Bot.Throttle.{throttled}
use tg_bot.Payment.Losing.{asked, throttled-lost}
use tg_bot.Tests.Model.{shop_env, order, shop}
use tg_bot.Tests.Soundness.{shop-IsSound}

abbrev busy_env : Env
busy_env = record shop_env { busy = λ n key. elim key [ throttle_key u ↦ true | _ ↦ false ] }

throttled-lost_example :
    (throttled busy_env 1500 (some 7) (handle_successful_payment busy_env "inv" "ch1") shop
      ≡ (ok none, asked shop))
    × (verify_payment busy_env 2 (asked shop) ≡ (
      ok (report order VerificationOutcome.no_provider_evidence PurchaseStatus.pending none none),
      asked shop,
    ))
throttled-lost_example =
    throttled-lost busy_env 1500 7 "inv" "ch1" shop order shop-IsSound refl refl refl refl refl
