-- ===== src/CryptoPay/Client.antt =====
-- `_call`, `fetch_states` and the end of `create_invoice` of
-- backend/app/infrastructure/payments/cryptobot.py. What the HTTP client brings is a parameter.
use tg_bot.Base.{
  ℕ, zero, suc, String, Bool, true, false, Option, none, some, List, [], ◌∷◌, ◌++◌, length, take,
  drop, leb, str_eq, if◌then◌else◌,
}
use tg_bot.Errors.{payment_gateway}
use tg_bot.Domain.{Invoice, PaymentState}
use tg_bot.World.{Result, ok, err, then_on}

-- A body that is no JSON, one that is not ok, one whose result is no object, or its result.
pub data Body (A : Type 0) : Type 0 where
  malformed rejected unexpected : Body A
  result : A → Body A

pub data Response (A : Type 0) : Type 0 where
  unreachable : Response A
  answered : ℕ → Body A → Response A

module _ {A : Type 0} where
  abbrev pub result_of : Body A → Result A
  result_of (result a) = ok a
  result_of _ = err payment_gateway

  -- `_call`
  unfoldable pub call : Response A → Result A
  call unreachable = err payment_gateway
  call (answered status body) = if leb 400 status then err payment_gateway else result_of body

-- `_STATE_BY_STATUS.get(status)`
abbrev pub state_by_status : String → Option PaymentState
state_by_status status =
    if str_eq status "active"
    then some PaymentState.pending
    else if str_eq status "paid"
    then some PaymentState.paid
    else if str_eq status "expired"
    then some PaymentState.expired
    else none

-- an item of `getInvoices`, with none for an id that is missing and a status that is no text
pub record Item : Type 0 where
  pub invoice_id : Option String
  pub status : Option String

abbrev pub item_state : Option String → Option PaymentState → List (String × PaymentState)
item_state (some id) (some state) = (id, state) ∷ []
item_state _ _ = []

abbrev pub state_of_status : Option String → Option PaymentState
state_of_status none = none
state_of_status (some status) = state_by_status status

-- what one batch writes into the dict, in order; none stands for items that are no list
abbrev pub states_in : List Item → List (String × PaymentState)
states_in [] = []
states_in (i ∷ is) = item_state i.invoice_id (state_of_status i.status) ++ states_in is

abbrev pub batch_states : Option (List Item) → List (String × PaymentState)
batch_states none = []
batch_states (some items) = states_in items

-- `_STATES_PER_REQUEST`
abbrev pub states_per_request : ℕ
states_per_request = 100

abbrev pub is_no_batch : List String → Bool
is_no_batch [] = true
is_no_batch _ = false

-- The slices of `range(0, len(external_ids), _STATES_PER_REQUEST)`; a round for each id is enough.
unfoldable pub batches : ℕ → List String → List (List String)
batches zero ids = []
batches (suc rounds) ids =
    let rest = batches rounds (drop states_per_request ids) in
    if is_no_batch ids then [] else take states_per_request ids ∷ rest

-- how Crypto Pay answers when it is asked for the invoices of a batch
module _ (get_invoices : List String → Response (Option (List Item))) where
  unfoldable pub fetch_batches : List (List String) → Result (List (String × PaymentState))
  fetch_batches [] = ok []
  fetch_batches (batch ∷ rest) =
      then_on (call (get_invoices batch))
        λ items. then_on (fetch_batches rest) λ others. ok (batch_states items ++ others)

  unfoldable pub fetch_states : List String → Result (List (String × PaymentState))
  fetch_states ids = fetch_batches (batches (length ids) ids)

-- the answer of `createInvoice`: its id, and `bot_invoice_url or pay_url` where that is a text
pub record Created : Type 0 where
  pub invoice_id : Option String
  pub pay_url : Option String

unfoldable pub invoice_of : Created → Result Invoice
invoice_of c = elim c.invoice_id [
  | none ↦ err payment_gateway
  | some id ↦ elim c.pay_url [
    | none ↦ err payment_gateway
    | some url ↦ ok (record { external_id = id; pay_url = some url })
  ]
]

unfoldable pub create_invoice : Response Created → Result Invoice
create_invoice response = then_on (call response) invoice_of
