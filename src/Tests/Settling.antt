-- ===== src/Tests/Settling.antt =====
-- The theorems on delivery and settlement, at Ann's open invoice: Telegram asks for a pause once, then
-- takes the message.
use Prim.Native.Nat.{zero, suc, max}
use tg_bot.Base.{ℕ, ◌+◌, ◌*◌, ◌≤◌, ◌<◌, ◌≡◌, refl, true, false, none, some, [], ◌∷◌, inl, arith}
use tg_bot.Domain.{stars, delivered, Purchase, DeliveryMessage, DeliveryResult, sent}
use tg_bot.World.{purchase_holds, World, accepted, ok, ◌>>=◌, locked}
use tg_bot.Repository.PurchaseTable
use tg_bot.Repository.CatalogTable
use tg_bot.Services.PurchaseService
use tg_bot.Services.DeliveryService.{
  backoff, send, sleep, send_with_retries, attempts_from, ended, deliver_purchase, deliver,
  hand_over, load_context, record_delivery,
}
use tg_bot.Services.CheckoutService.{settle_payment}
use tg_bot.Sound.Rows.{IsSound}
use tg_bot.Delivery.Backoff.{backoff_bounds}
use tg_bot.Delivery.Retries.{
  Attempted, send_with_retries-Attempted, send_with_retries-decided, is_transient,
}
use tg_bot.Payment.Settlement.{
  settle_payment-ok, settle_payment-replay, InvoiceDelivered, nothing_to_do,
}
use tg_bot.Domain.Slug.{matches_slug_pattern}
use tg_bot.Tests.Model.{shop_env, shop_env-Enforces, order, shop}
use tg_bot.Tests.Soundness.{shop-IsSound}

backoff_bounds_example :
    (backoff shop_env 999999 5 none ≤ 40000000)
    × (25000000 ≤ backoff shop_env 999999 5 (some 25000000))
    × (backoff shop_env 999999 5 (some 25000000) ≤ max 25000000 40000000)
backoff_bounds_example = backoff_bounds shop_env 999999 5 25000000 (omega arith) (omega arith)

abbrev pub message : DeliveryMessage
message = record {
  chat_id = 7;
  purchase_id = 2;
  product_title = "Guide";
  delivery_url = "https://example.com/g";
  is_repeat = false;
}

abbrev pub third : World
third = record shop { tick = 3 }

send_with_retries-Attempted_example :
    Attempted shop_env message 4 1 third (send_with_retries shop_env message third)
send_with_retries-Attempted_example =
    send_with_retries-Attempted shop_env message third (omega arith)

flood_first :
    (j : ℕ) → j < 1 → is_transient shop_env message (shop_env.send (3 + 2 * j) message) ≡ true
flood_first zero h = refl
flood_first (suc j) h = absurd (omega arith)

send_with_retries-decided_example :
    (send_with_retries shop_env message third).0 ≡ ok (ended shop_env message 2 accepted)
send_with_retries-decided_example =
    send_with_retries-decided shop_env message 1 third (omega arith) flood_first (inl refl)

abbrev first_result : DeliveryResult
first_result = record { status = sent; purchase_id = 2; attempts = 2; error = none }

settled :
    settle_payment shop_env stars "inv" (some "ch1") none shop
    ≡ (ok first_result, (settle_payment shop_env stars "inv" (some "ch1") none shop).1)
unfolding settle_payment PurchaseService.confirm_payment PurchaseService.confirm
    PurchaseService.mark_delivered PurchaseTable.get_by_external_id PurchaseTable.mark_paid
    PurchaseTable.lock PurchaseTable.pay PurchaseTable.update PurchaseTable.write
    PurchaseTable.moment_or_now PurchaseTable.mark_delivered PurchaseTable.get CatalogTable.get
    CatalogTable.get_user deliver_purchase deliver hand_over load_context send_with_retries
    attempts_from send sleep backoff record_delivery locked ◌>>=◌ purchase_holds
settled = refl

settle_payment-ok_example :
    InvoiceDelivered (settle_payment shop_env stars "inv" (some "ch1") none shop).1 stars "inv"
settle_payment-ok_example =
    settle_payment-ok shop_env shop_env-Enforces stars "inv" (some "ch1") none shop first_result
      (settle_payment shop_env stars "inv" (some "ch1") none shop).1 shop-IsSound settled refl

abbrev done : Purchase
done = record order {
  status = delivered;
  telegram_charge_id = some "ch1";
  paid_at = some 9;
  delivered_at = some 10;
  delivered_url = some "https://example.com/g";
}

abbrev done_shop : World
done_shop = record shop { db = record (shop.db) { purchases = done ∷ [] } }

done_shop-IsSound : IsSound done_shop.db
unfolding matches_slug_pattern
done_shop-IsSound = record {
  purchases = (
    record { amount = omega arith; paid = refl; delivered = refl; buyer = refl; product = refl },
    tt,
  );
  apart = (tt, tt);
  products = (record { slug = refl; priced = refl; stars = refl; usdt = refl }, tt);
  products_apart = (tt, tt);
}

settle_payment-replay_example :
    settle_payment shop_env stars "inv" (some "ch1") none done_shop
    ≡ (ok (nothing_to_do shop_env done), record done_shop { tick = 2 })
settle_payment-replay_example =
    settle_payment-replay shop_env stars "inv" (some "ch1") none done_shop done done_shop-IsSound
      refl refl refl refl refl
