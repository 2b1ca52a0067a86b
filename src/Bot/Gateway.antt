-- ===== src/Bot/Gateway.antt =====
-- backend/app/infrastructure/telegram/errors.py and `TelegramDeliveryGateway` of gateways.py beside it.
-- What aiogram raises is data here; `lower` and `number` are Python's `str.lower`, by code points, and
-- `str` of an integer.
use Prim.Native.String.{◌++◌ as ◌+++◌}
use tg_bot.Base.{
  ℕ, ◌*◌, String, Bool, true, false, ◌&&◌, ◌||◌, Option, none, some, List, [], ◌∷◌, ◌==◌,
  if◌then◌else◌,
}
use tg_bot.Domain.Slug.{codes}
use tg_bot.World.{Sending, accepted, transient, permanent}

-- The exceptions that are told apart, with `str(error)`; flood control with the seconds to wait.
pub data Failure : Type 0 where
  retry_after : ℕ → Failure
  forbidden bad_request server_error network_error other_api_error unexpected : String → Failure

abbrev pub begins : List ℕ → List ℕ → Bool
begins [] text = true
begins (m ∷ ms) [] = false
begins (m ∷ ms) (c ∷ cs) = m == c && begins ms cs

-- `marker in text`
abbrev pub contains : List ℕ → List ℕ → Bool
contains marker [] = begins marker []
contains marker (c ∷ cs) = begins marker (c ∷ cs) || contains marker cs

abbrev pub has_any : List String → List ℕ → Bool
has_any [] text = false
has_any (m ∷ ms) text = contains (codes m) text || has_any ms text

-- `_PERMANENT_MARKERS`
abbrev pub permanent_markers : List String
permanent_markers =
    "chat not found" ∷ "user is deactivated" ∷ "bot was blocked" ∷ "bot was kicked"
    ∷ "peer_id_invalid" ∷ "chat_id is empty" ∷ []

module _ (lower : String → List ℕ) (number : ℕ → String) where
  abbrev pub is_permanent_bad_request : String → Bool
  is_permanent_bad_request error = has_any permanent_markers (lower error)

  unfoldable pub to_delivery_error : Failure → Sending
  to_delivery_error (retry_after seconds) =
      transient ("Telegram flood control: retry after " +++ number seconds +++ "s")
        (some (seconds * 1000000))
  to_delivery_error (forbidden e) = permanent ("Telegram refused: " +++ e)
  to_delivery_error (bad_request e) =
      if is_permanent_bad_request e
      then permanent ("Telegram rejected the chat: " +++ e)
      else transient ("Telegram bad request: " +++ e) none
  to_delivery_error (server_error e) = transient ("Telegram is unavailable: " +++ e) none
  to_delivery_error (network_error e) = transient ("Telegram is unavailable: " +++ e) none
  to_delivery_error (other_api_error e) = transient ("Telegram API error: " +++ e) none
  to_delivery_error (unexpected e) = transient ("Unexpected transport failure: " +++ e) none

  -- `TelegramDeliveryGateway.send`, by what `send_message` raises
  unfoldable pub gateway_send : Option Failure → Sending
  gateway_send none = accepted
  gateway_send (some failure) = to_delivery_error failure
