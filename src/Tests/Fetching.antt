-- ===== src/Tests/Fetching.antt =====
-- The theorem on batches, at a Crypto Pay whose invoices are all paid.
use tg_bot.Base.{◌≡◌, refl, String, Option, none, some, List, [], ◌∷◌, str_eq, inl, inr, Bool-cases}
use tg_bot.Domain.{PaymentState}
use tg_bot.World.{ok}
use tg_bot.Services.CheckoutService.{state_of}
use tg_bot.CryptoPay.Client.{Response, answered, result, call, Item, states_in, fetch_states}
use tg_bot.CryptoPay.Batches.{names, Tells, fetch_states-Tells}

abbrev all_paid : String → Option PaymentState
all_paid k = some PaymentState.paid

abbrev item_of : String → Item
item_of k = record { invoice_id = some k; status = some "paid" }

abbrev items_of : List String → List Item
items_of [] = []
items_of (k ∷ ks) = item_of k ∷ items_of ks

abbrev get_invoices : List String → Response (Option (List Item))
get_invoices ids = answered 200 (result (some (items_of ids)))

items-Tells : (ids : List String) → Tells all_paid ids (states_in (items_of ids))
unfolding state_of
items-Tells [] k = refl
items-Tells (i ∷ ids) k = elim (Bool-cases (names k ids)) [
  | inl among ↦
      let e : state_of k (states_in (items_of ids)) ≡ some PaymentState.paid =
        rw (items-Tells ids k, among) in
      elim (Bool-cases (str_eq i k)) [ inl same ↦ rw (e, same) | inr other ↦ rw (e, other, among) ]
  | inr absent ↦
      let e : state_of k (states_in (items_of ids)) ≡ none = rw (items-Tells ids k, absent) in
      elim (Bool-cases (str_eq i k)) [ inl same ↦ rw (e, same) | inr other ↦ rw (e, other, absent) ]
]

abbrev two_ids : List String
two_ids = "IV1" ∷ "IV2" ∷ []

fetch_states-Tells_example :
    (states : List (String × PaymentState)) × (fetch_states get_invoices two_ids ≡ ok states)
    × Tells all_paid two_ids states
unfolding call
fetch_states-Tells_example =
    fetch_states-Tells get_invoices all_paid
      (λ batch small. (some (items_of batch), refl, items-Tells batch)) two_ids
