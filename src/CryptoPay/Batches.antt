-- ===== src/CryptoPay/Batches.antt =====
-- Asking in batches loses no invoice.
use tg_bot.Base.{
  ℕ, zero, suc, ◌≤◌, ◌≡◌, subst, refl, ap, String, Bool, true, false, ◌||◌, Option, none, some,
  List, [], ◌∷◌, ◌++◌, length, length-drop, take, drop, str_eq, if◌then◌else◌, arith, inl, inr,
  Option-cases,
}
use tg_bot.Errors.{Error, payment_gateway}
use tg_bot.Domain.{PaymentState}
use tg_bot.World.{ok, err}
use tg_bot.Services.CheckoutService.{state_of}
use tg_bot.CryptoPay.Client.{
  Response, unreachable, answered, call, malformed, rejected, unexpected, result, Item,
  batch_states, states_per_request, batches, fetch_batches, fetch_states,
}

abbrev pub names : String → List String → Bool
names k [] = false
names k (j ∷ js) = str_eq j k || names k js

names-append :
    (k : String) (as' bs : List String) → names k (as' ++ bs) ≡ (names k as' || names k bs)
names-append k [] bs = refl
names-append k (a ∷ as') bs = ground (arith, names-append k as' bs)

take-append-drop : (n : ℕ) (ids : List String) → take n ids ++ drop n ids ≡ ids
take-append-drop zero ids = refl
take-append-drop (suc n) [] = refl
take-append-drop (suc n) (i ∷ ids) = ap (λ (t : List String). i ∷ t) (take-append-drop n ids)

-- what was written later counts
abbrev or_later : Option PaymentState → Option PaymentState → Option PaymentState
or_later none earlier = earlier
or_later (some s) earlier = some s

state_of-append :
    (k : String) (as' bs : List (String × PaymentState))
    → state_of k (as' ++ bs) ≡ or_later (state_of k bs) (state_of k as')
unfolding state_of
state_of-append k [] bs = elim (Option-cases (state_of k bs)) [
  | inl missing ↦ rw missing
  | inr (s, there) ↦ rw there
]
state_of-append k ((j, s) ∷ as') bs = elim (Option-cases (state_of k bs)) [
  | inl missing ↦
      let e : state_of k (as' ++ bs) ≡ state_of k as' = rw (state_of-append k as' bs, missing) in
      rw (missing, e)
  | inr (later, there) ↦
      let e : state_of k (as' ++ bs) ≡ some later = rw (state_of-append k as' bs, there) in
      rw (there, e)
]

-- A dict that gives each of these ids the state that it has, and no other id any.
abbrev pub Tells :
    (String → Option PaymentState) → List String → List (String × PaymentState) → Type 0
Tells truth ids states = (k : String) → state_of k states ≡ (if names k ids then truth k else none)

Tells-append :
    (truth : String → Option PaymentState) (as' bs : List String)
    (x y : List (String × PaymentState))
    → Tells truth as' x
    → Tells truth bs y
    → Tells truth (as' ++ bs) (x ++ y)
Tells-append truth as' bs x y h g k =
    rw (state_of-append k x y, h k, g k, names-append k as' bs)
      (joined (names k as') (names k bs) (truth k))
  where
    joined :
        (a b : Bool) (o : Option PaymentState)
        → or_later (if b then o else none) (if a then o else none) ≡ (if a || b then o else none)
    joined true true none = refl
    joined true true (some s) = refl
    joined true false none = refl
    joined true false (some s) = refl
    joined false true none = refl
    joined false true (some s) = refl
    joined false false o = refl

length-take_le : (n : ℕ) (ids : List String) → length (take n ids) ≤ n
length-take_le zero ids = omega arith
length-take_le (suc n) [] = omega arith
length-take_le (suc n) (i ∷ ids) = omega (arith, length-take_le n ids)

module _ (get_invoices : List String → Response (Option (List Item)))
    (truth : String → Option PaymentState) where
  -- Crypto Pay answers for up to a hundred ids at a time, each with its state.
  abbrev pub Answers : Type 0
  Answers =
      (batch : List String)
      → length batch ≤ states_per_request
      → (items : Option (List Item)) × (call (get_invoices batch) ≡ ok items)
        × Tells truth batch (batch_states items)

  fetched_step :
      (batch : List String) (rest : List (List String)) (items : Option (List Item))
      (states : List (String × PaymentState))
      → call (get_invoices batch) ≡ ok items
      → fetch_batches get_invoices rest ≡ ok states
      → fetch_batches get_invoices (batch ∷ rest) ≡ ok (batch_states items ++ states)
  unfolding fetch_batches
  fetched_step batch rest items states called fetched = rw (called, fetched)

  batches_told :
      Answers
      → (rounds : ℕ) (ids : List String) → length ids ≤ rounds
      → (states : List (String × PaymentState)) × (fetch_batches get_invoices (batches rounds ids)
          ≡ ok states)
        × Tells truth ids states
  unfolding batches fetch_batches state_of
  batches_told answers zero [] h = ([], refl, λ k. refl)
  batches_told answers zero (i ∷ ids) h = absurd (omega arith)
  batches_told answers (suc rounds) [] h = ([], refl, λ k. refl)
  batches_told answers (suc rounds) (i ∷ ids) h =
      let batch = take states_per_request (i ∷ ids) in
      let rest = drop states_per_request (i ∷ ids) in
      let shorter = length-drop states_per_request (i ∷ ids) in
      let (items, called, told) = answers batch (length-take_le states_per_request (i ∷ ids)) in
      let (states, fetched, others) = batches_told answers rounds rest (omega arith) in
      (
        batch_states items ++ states,
        fetched_step batch (batches rounds rest) items states called fetched,
        subst (λ t. Tells truth t (batch_states items ++ states))
            (take-append-drop states_per_request (i ∷ ids))
            (Tells-append truth batch rest (batch_states items) states told others),
      )

  -- Where Crypto Pay answers for up to a hundred invoice ids at a time, with the state of each of
  -- these and of no other invoice: the states of any number of ids, a hundred at a time, come back,
  -- each id with its state, and no other id with any.
  pub fetch_states-Tells :
      Answers
      → (ids : List String)
      → (states : List (String × PaymentState)) × (fetch_states get_invoices ids ≡ ok states)
        × Tells truth ids states
  unfolding fetch_states
  fetch_states-Tells answers ids = batches_told answers (length ids) ids (omega arith)

-- A call of the API that fails, fails as a payment gateway.
call-refused : {A : Type 0} (r : Response A) (e : Error) → call r ≡ err e → e ≡ payment_gateway
unfolding call
call-refused unreachable e h = ground arith
call-refused (answered status malformed) e h = ground arith
call-refused (answered status rejected) e h = ground arith
call-refused (answered status unexpected) e h = ground arith
call-refused (answered status (result a)) e h = ground arith
