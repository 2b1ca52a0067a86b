-- ===== src/Bot/Start.antt =====
-- backend/app/bot/handlers/start.py, with the buttons of backend/app/bot/keyboards.py: what a deep link
-- of the shop answers. How Telegram takes a message is a parameter.
use tg_bot.Base.{
  ℕ, ◌+◌, String, Bool, true, false, Option, none, some, or_else, List, [], ◌∷◌, map, if◌then◌else◌,
}
use tg_bot.Errors.{Error, product_not_found, product_inactive}
use tg_bot.Domain.{
  Uuid, Purchase, PaymentProvider, PaymentOption, ProductCard, UserDraft, succeeded,
}
use tg_bot.Domain.Slug.{is_valid_slug}
use tg_bot.World.{Env, Result, Run, ◌>>=◌, ◌>>◌, pure, raise, catching}
use tg_bot.Repository.PurchaseTable.{truthy}
use tg_bot.Services.PurchaseService
use tg_bot.Services.CheckoutService
use tg_bot.Texts.Strip.{strip}
use tg_bot.Bot.Handlers.{is_lock_busy}
use tg_bot.Bot.Messages.{product_card}

-- `PayCallback`; the label of a button is a constant text for each provider
pub record PayCallback : Type 0 where
  pub provider : PaymentProvider
  pub product_id : Uuid

abbrev button : Uuid → PaymentOption → PayCallback
button product_id o = record { provider = o.provider; product_id = product_id }

-- one row with one button for each option
unfoldable pub payment_keyboard : ProductCard → List PayCallback
payment_keyboard card = map (button card.product.id) card.options

-- A message to the chat: a constant text by its name, or a card, as a photo with a caption or a text.
pub data Answer : Type 0 where
  card_not_found card_unavailable already_purchased delivery_failed : Answer
  card_photo : String → List ℕ → List PayCallback → Answer
  card_text : List ℕ → List PayCallback → Answer

-- how `open_card` ends under its `except` clauses
pub data Opened : Type 0 where
  refused : Answer → Opened
  opened : ProductCard → Opened

abbrev pub not_opened : Error → Run Opened
not_opened product_not_found = pure (refused card_not_found)
not_opened product_inactive = pure (refused card_unavailable)
not_opened e = raise e

-- the message with a card: a photo where the product has one
abbrev pub card_message : ProductCard → Answer
card_message card =
    let caption = product_card card in
    let keyboard = payment_keyboard card in
    if truthy card.product.photo_file_id
    then card_photo (or_else card.product.photo_file_id "") caption keyboard
    else card_text caption keyboard

module _ (env : Env) (telegram : ℕ → Answer → Result (Unit {0})) where
  -- `message.answer` and `message.answer_photo`
  unfoldable pub send_answer : Answer → Run (Unit {0})
  send_answer a w = (telegram w.tick a, record w { tick = w.tick + 1 })

  -- what the handler sent, in order
  abbrev pub say : Answer → Run (List Answer)
  say a = send_answer a >> pure (a ∷ [])

  -- the end of a delivery that was repeated; none is a delivery that runs already
  abbrev pub after_delivery : Option Bool → Run (List Answer)
  after_delivery none = pure (already_purchased ∷ [])
  after_delivery (some true) = pure (already_purchased ∷ [])
  after_delivery (some false) =
      send_answer delivery_failed >> pure (already_purchased ∷ delivery_failed ∷ [])

  abbrev pub repeat_delivery : Uuid → Run (Option Bool)
  repeat_delivery id =
      catching (λ e. if is_lock_busy e then pure none else raise e)
        (CheckoutService.redeliver env id >>= λ result. pure (some (succeeded result)))

  abbrev pub show_card : ProductCard → Option Purchase → Run (List Answer)
  show_card card none = say (card_message card)
  show_card card (some owned) =
      send_answer already_purchased >> (repeat_delivery owned.id >>= after_delivery)

  unfoldable pub answer : Opened → Run (List Answer)
  answer (refused a) = say a
  answer (opened card) = show_card card card.owned_purchase

  unfoldable pub try_card : UserDraft → String → Run Opened
  try_card profile slug =
      catching not_opened
        (PurchaseService.open_card env profile slug >>= λ card. pure (opened card))

  -- `handle_deep_link`, where the message has a sender
  unfoldable pub handle_deep_link : UserDraft → Option String → Run (List Answer)
  handle_deep_link profile args =
      let payload = strip (or_else args "") in
      if is_valid_slug payload then try_card profile payload >>= answer else say card_not_found
