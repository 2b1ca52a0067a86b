-- ===== src/Delivery/Refusals.antt =====
-- Which answers of Telegram end the attempts of `_send_with_retries`.
use tg_bot.Base.{
  ℕ, suc, ◌+◌, ◌*◌, ◌<◌, ◌≡◌, refl, sym, subst, ap, String, Bool, true, false, Option, none, some,
  List, [], ◌∷◌, ◌++◌, arith, ◌⊎◌, inl, inr, Bool-cases,
}
use tg_bot.Domain.{DeliveryMessage, DeliveryResult, DeliveryStatus, sent, failed}
use tg_bot.Domain.Slug.{codes}
use tg_bot.World.{Env, Sending, accepted, transient, permanent, World, ok}
use tg_bot.Services.DeliveryService.{ended, send_with_retries}
use tg_bot.Bot.Gateway.{
  Failure, retry_after, forbidden, bad_request, server_error, network_error, other_api_error,
  unexpected, begins, contains, has_any, permanent_markers, to_delivery_error, gateway_send,
}
use tg_bot.Delivery.Retries.{is_transient, send_with_retries-decided}

abbrev pub Within : List ℕ → List ℕ → Type 0
Within part text = (front : List ℕ) × (back : List ℕ) × (text ≡ front ++ (part ++ back))

-- a text that names one of these situations
pub data Names (text : List ℕ) : List String → Type 0 where
  here : {m : String} {ms : List String} → Within (codes m) text → Names text (m ∷ ms)
  there : {m : String} {ms : List String} → Names text ms → Names text (m ∷ ms)

begins_found : (m t : List ℕ) → begins m t ≡ true → (back : List ℕ) × (t ≡ m ++ back)
begins_found [] t h = (t, refl)
begins_found (c ∷ m) [] h = absurd (ground arith)
begins_found (c ∷ m) (d ∷ t) h =
    let (back, e) = begins_found m t (ground arith) in
    let same : d ≡ c = ground arith in
    (back, subst (λ (x : ℕ). d ∷ t ≡ x ∷ (m ++ back)) same (ap (λ (u : List ℕ). d ∷ u) e))

begins-append : (m back : List ℕ) → begins m (m ++ back) ≡ true
begins-append [] back = refl
begins-append (c ∷ m) back = ground (arith, begins-append m back)

contains_found : (m t : List ℕ) → contains m t ≡ true → Within m t
contains_found m [] h = let (back, e) = begins_found m [] h in ([], back, e)
contains_found m (c ∷ t) h = elim (Bool-cases (begins m (c ∷ t))) [
  | inl first ↦ let (back, e) = begins_found m (c ∷ t) first in ([], back, e)
  | inr later ↦
      let (front, back, e) = contains_found m t (rw later at h) in
      (c ∷ front, back, ap (λ (u : List ℕ). c ∷ u) e)
]

contains_first : (m t : List ℕ) → begins m t ≡ true → contains m t ≡ true
contains_first m [] h = h
contains_first m (c ∷ t) h = rw h refl

contains-append : (m front back : List ℕ) → contains m (front ++ (m ++ back)) ≡ true
contains-append m [] back = contains_first m (m ++ back) (begins-append m back)
contains-append m (c ∷ front) back = ground (arith, contains-append m front back)

Names-found : (ms : List String) (t : List ℕ) → has_any ms t ≡ true → Names t ms
Names-found [] t h = absurd (ground arith)
Names-found (m ∷ ms) t h = elim (Bool-cases (contains (codes m) t)) [
  | inl first ↦ here (contains_found (codes m) t first)
  | inr later ↦ there (Names-found ms t (rw later at h))
]

has_any-Names : (ms : List String) (t : List ℕ) → Names t ms → has_any ms t ≡ true
has_any-Names [] t n = elim n [ ]
has_any-Names (m ∷ ms) t (here (front, back, e)) =
    let found : contains (codes m) t ≡ true = rw e (contains-append (codes m) front back) in
    rw found refl
has_any-Names (m ∷ ms) t (there n) = ground (arith, has_any-Names ms t n)

module _ (lower : String → List ℕ) (number : ℕ → String) (env : Env) (m : DeliveryMessage) where
  -- The chat refuses for good: a 403, or a 400 that names such a situation.
  abbrev pub Hopeless : Failure → Type 0
  Hopeless (forbidden e) = Unit {0}
  Hopeless (bad_request e) = Names (lower e) permanent_markers
  Hopeless _ = ⊥

  Hopeless-ends :
      (f : Failure) → Hopeless f → is_transient env m (gateway_send lower number (some f)) ≡ false
  unfolding gateway_send to_delivery_error
  Hopeless-ends (retry_after seconds) h = absurd h
  Hopeless-ends (forbidden e) h = refl
  Hopeless-ends (bad_request e) h =
      let named : has_any permanent_markers (lower e) ≡ true =
        has_any-Names permanent_markers (lower e) h in
      rw named refl
  Hopeless-ends (server_error e) h = absurd h
  Hopeless-ends (network_error e) h = absurd h
  Hopeless-ends (other_api_error e) h = absurd h
  Hopeless-ends (unexpected e) h = absurd h

  hoped_retried :
      (f : Failure) → ¬ Hopeless f → is_transient env m (gateway_send lower number (some f)) ≡ true
  unfolding gateway_send to_delivery_error
  hoped_retried (retry_after seconds) h = refl
  hoped_retried (forbidden e) h = absurd (h tt)
  hoped_retried (bad_request e) h = elim (Bool-cases (has_any permanent_markers (lower e))) [
    | inl named ↦ absurd (h (Names-found permanent_markers (lower e) named))
    | inr other ↦ rw other refl
  ]
  hoped_retried (server_error e) h = refl
  hoped_retried (network_error e) h = refl
  hoped_retried (other_api_error e) h = refl
  hoped_retried (unexpected e) h = refl

  module _ (raised : ℕ → Option Failure) where
    -- the gateway sends by `send_message`, which ends so at the question of a number
    abbrev pub ByTelegram : Type 0
    ByTelegram = (t : ℕ) → env.send t m ≡ gateway_send lower number (raised t)

    -- An answer that leaves hope, and one that ends the attempts.
    abbrev pub IsHoped : Option Failure → Type 0
    IsHoped none = ⊥
    IsHoped (some f) = ¬ Hopeless f

    abbrev pub IsFinal : Option Failure → Type 0
    IsFinal none = Unit {0}
    IsFinal (some f) = Hopeless f

    abbrev pub status_after : Option Failure → DeliveryStatus
    status_after none = sent
    status_after (some f) = failed

    hoped :
        (o : Option Failure) → IsHoped o → is_transient env m (gateway_send lower number o) ≡ true
    hoped none h = absurd h
    hoped (some f) h = hoped_retried f h

    final :
        (o : Option Failure) → IsFinal o → is_transient env m (gateway_send lower number o) ≡ false
    unfolding gateway_send
    final none h = refl
    final (some f) h = Hopeless-ends f h

    ended_attempts : (k : ℕ) (s : Sending) → (ended env m k s).attempts ≡ k
    ended_attempts k accepted = refl
    ended_attempts k (transient e hint) = refl
    ended_attempts k (permanent e) = refl

    ended_status :
        (k : ℕ) (o : Option Failure)
        → (ended env m k (gateway_send lower number o)).status ≡ status_after o
    unfolding gateway_send to_delivery_error
    ended_status k none = refl
    ended_status k (some (retry_after seconds)) = refl
    ended_status k (some (forbidden e)) = refl
    ended_status k (some (bad_request e)) =
        elim (Bool-cases (has_any permanent_markers (lower e))) [
          | inl named ↦ rw named refl
          | inr other ↦ rw other refl
        ]
    ended_status k (some (server_error e)) = refl
    ended_status k (some (network_error e)) = refl
    ended_status k (some (other_api_error e)) = refl
    ended_status k (some (unexpected e)) = refl

    -- Where the gateway sends by Telegram: if Telegram refuses the attempts before attempt `k + 1` by
    -- anything but a 403 or a 400 that names a hopeless chat, and attempt `k + 1` is accepted, or
    -- refused by such an answer, or is the last one allowed, then the retries end after `k + 1`
    -- attempts: with status sent if that attempt is accepted, and failed if it is refused.
    pub send_with_retries-final :
        ByTelegram
        → (k : ℕ) (w : World) → k < env.delivery.max_attempts
        → ((j : ℕ) → j < k → IsHoped (raised (w.tick + 2 * j)))
        → IsFinal (raised (w.tick + 2 * k)) ⊎ (suc k ≡ env.delivery.max_attempts)
        → (r : DeliveryResult) × ((send_with_retries env m w).0 ≡ ok r)
          × (r.attempts ≡ 1 + k)
          × (r.status ≡ status_after (raised (w.tick + 2 * k)))
    send_with_retries-final by k w room before last =
        let answer = gateway_send lower number (raised (w.tick + 2 * k)) in
        let done =
          send_with_retries-decided env m k w room
            (λ j less.
              by_answer (w.tick + 2 * j) true (hoped (raised (w.tick + 2 * j)) (before j less)))
            (elim last [
              | inl x ↦ inl (by_answer (w.tick + 2 * k) false (final (raised (w.tick + 2 * k)) x))
              | inr y ↦ inr y
            ]) in
        (
          ended env m (1 + k) answer,
          subst (λ (s : Sending). (send_with_retries env m w).0 ≡ ok (ended env m (1 + k) s))
              (by (w.tick + 2 * k)) done,
          ended_attempts (1 + k) answer,
          ended_status (1 + k) (raised (w.tick + 2 * k)),
        )
      where
        by_answer :
            (t : ℕ) (b : Bool)
            → is_transient env m (gateway_send lower number (raised t)) ≡ b
            → is_transient env m (env.send t m) ≡ b
        by_answer t b h = subst (λ (s : Sending). is_transient env m s ≡ b) (sym (by t)) h
