-- ===== src/Delivery/Retries.antt =====
-- The attempts of `_send_with_retries`: how many, which answer decides, and what stays behind.
use mathlib.Core.Path.{ap₂}
use tg_bot.Base.{
  subst, sym, ap, ◌∙◌, ◌⊎◌, ℕ, zero, suc, ◌+◌, ◌*◌, ◌≤◌, ◌<◌, ◌≡◌, refl, Bool, true, false, Option,
  ◌∷◌, length, if◌then◌else◌, arith, inl, inr,
}
use tg_bot.Domain.{DeliveryMessage, DeliveryResult, sent, failed, succeeded}
use tg_bot.World.{Run, Env, Sending, accepted, transient, permanent, World, Result, ok, ◌>>=◌}
use tg_bot.Services.DeliveryService.{
  send, sleep, backoff, ended, follow, outcome, attempts_from, send_with_retries,
}

module _ (env : Env) (m : DeliveryMessage) where
  -- The world after a transient answer and the pause that follows it.
  abbrev paused : ℕ → Option ℕ → World → World
  paused attempt hint w = record w {
    tick = w.tick + 1 + 1;
    sleeps = backoff env (env.jitter (w.tick + 1)) attempt hint ∷ w.sleeps;
  }

  -- What the attempts leave behind, when they began at `w` with attempt number `first`.
  pub record Attempted (rounds first : ℕ) (w : World) (out : Result DeliveryResult × World)
      : Type 0 where
    pub result : DeliveryResult
    pub returned : out.0 ≡ ok result
    pub ended_sent : (result.status ≡ sent) ⊎ (result.status ≡ failed)
    pub first_le : first ≤ result.attempts
    pub le_last : result.attempts < first + rounds
    pub outbox : out.1.outbox ≡ (if succeeded result then m ∷ w.outbox else w.outbox)
    pub sleeps : length out.1.sleeps + first ≡ length w.sleeps + result.attempts
    pub db : out.1.db ≡ w.db
    pub invoices : out.1.invoices ≡ w.invoices

  -- One more answer: the end, or the end of the attempts that follow the pause.
  answered :
      (rounds first : ℕ) (w : World) (answer : Sending)
      → ((hint : Option ℕ)
          → 0 < rounds
          → Attempted rounds
              (first + 1)
              (paused first hint w)
              (attempts_from env rounds (first + 1) m (paused first hint w)))
      → Attempted (suc rounds) first w (
          follow env m first rounds
            (attempts_from env rounds (first + 1) m)
            answer
            (outcome env m answer w))
  unfolding ◌>>=◌ sleep
  answered rounds first w accepted rest = record {
    result = ended env m first accepted;
    returned = refl;
    ended_sent = inl refl;
    first_le = omega arith;
    le_last = omega arith;
    outbox = refl;
    sleeps = refl;
    db = refl;
    invoices = refl;
  }
  answered rounds first w (permanent e) rest = record {
    result = ended env m first (permanent e);
    returned = refl;
    ended_sent = inr refl;
    first_le = omega arith;
    le_last = omega arith;
    outbox = refl;
    sleeps = refl;
    db = refl;
    invoices = refl;
  }
  answered zero first w (transient e hint) rest = record {
    result = ended env m first (transient e hint);
    returned = refl;
    ended_sent = inr refl;
    first_le = omega arith;
    le_last = omega arith;
    outbox = refl;
    sleeps = refl;
    db = refl;
    invoices = refl;
  }
  answered (suc r) first w (transient e hint) rest =
      let k = rest hint (omega arith) in
      record {
        result = k.result;
        returned = k.returned;
        ended_sent = k.ended_sent;
        first_le = let h = k.first_le in omega arith;
        le_last = let h = k.le_last in omega arith;
        outbox = k.outbox;
        sleeps = let h = k.sleeps in omega arith;
        db = k.db;
        invoices = k.invoices;
      }

  attempts_from-Attempted :
      (rounds first : ℕ) (w : World)
      → 0 < rounds
      → Attempted rounds first w (attempts_from env rounds first m w)
  unfolding attempts_from send ◌>>=◌
  attempts_from-Attempted zero first w h = absurd (omega arith)
  attempts_from-Attempted (suc rounds) first w h =
      answered rounds first w (env.send w.tick m)
        (λ hint pos. attempts_from-Attempted rounds (first + 1) (paused first hint w) pos)

  -- With at least one attempt allowed, the retries always return: with status sent or failed, after at
  -- least one and at most `max_attempts` attempts. The message is in the outbox once if it was sent
  -- and not at all if not, there is one pause between two attempts, and the tables and the invoices
  -- are as before.
  pub send_with_retries-Attempted :
      (w : World)
      → 0 < env.delivery.max_attempts
      → Attempted env.delivery.max_attempts 1 w (send_with_retries env m w)
  unfolding send_with_retries
  send_with_retries-Attempted w h = attempts_from-Attempted env.delivery.max_attempts 1 w h

  -- The answer to attempt number `k + 1` of a run whose first question has the number `tick`.
  abbrev pub answer_to : ℕ → ℕ → Sending
  answer_to tick k = env.send (tick + 2 * k) m

  abbrev pub is_transient : Sending → Bool
  is_transient (transient _ _) = true
  is_transient _ = false

  -- An answer that ends the run, at once or because no attempt is left.
  final_answer :
      (rounds first : ℕ) (next : Run DeliveryResult) (answer : Sending) (w : World)
      → (is_transient answer ≡ false) ⊎ (rounds ≡ 0)
      → (follow env m first rounds next answer w).0 ≡ ok (ended env m first answer)
  unfolding ◌>>=◌
  final_answer rounds first next accepted w h = refl
  final_answer rounds first next (permanent e) w h = refl
  final_answer zero first next (transient e hint) w h = refl
  final_answer (suc r) first next (transient e hint) w h = absurd (ground arith)

  -- A transient answer with an attempt left is followed by a pause and the next attempt.
  retried :
      (r first : ℕ) (next : Run DeliveryResult) (answer : Sending) (w : World)
      → is_transient answer ≡ true
      → (hint : Option ℕ) × (follow env m first (suc r) next answer (outcome env m answer w)
          ≡ next (paused first hint w))
  unfolding ◌>>=◌ sleep
  retried r first next accepted w h = cc
  retried r first next (permanent e) w h = cc
  retried r first next (transient e hint) w h = (hint, refl)

  shift : (tick j : ℕ) → tick + 2 * suc j ≡ tick + 1 + 1 + 2 * j
  shift tick j = omega arith

  last_at :
      (t u n rounds : ℕ)
      → t ≡ u
      → (is_transient (env.send t m) ≡ false) ⊎ (n ≡ rounds)
      → (is_transient (env.send u m) ≡ false) ⊎ (n ≡ rounds)
  last_at t u n rounds e h = subst (λ v. (is_transient (env.send v m) ≡ false) ⊎ (n ≡ rounds)) e h

  decided :
      (rounds first k : ℕ) (w : World)
      → k < rounds
      → ((j : ℕ) → j < k → is_transient (answer_to w.tick j) ≡ true)
      → (is_transient (answer_to w.tick k) ≡ false) ⊎ (suc k ≡ rounds)
      → (attempts_from env rounds first m w).0 ≡ ok (ended env m (first + k) (answer_to w.tick k))
  unfolding attempts_from send ◌>>=◌
  decided zero first k w h before last = absurd (omega arith)
  decided (suc rounds) first zero w h before last =
      let here : w.tick + 2 * 0 ≡ w.tick = omega arith in
      let number : first ≡ first + 0 = omega arith in
      final_answer rounds first _ (env.send w.tick m) _
        (elim (last_at (w.tick + 2 * 0) w.tick 1 (suc rounds) here last) [
          | inl x ↦ inl x
          | inr y ↦ inr (omega arith)
        ])
      ∙ ap₂ (λ a t. ok (ended env m a (env.send t m))) number (sym here)
  decided (suc zero) first (suc k) w h before last = absurd (omega arith)
  decided (suc (suc r)) first (suc k) w h before last =
      let here : w.tick + 2 * 0 ≡ w.tick = omega arith in
      let (hint, e) =
        retried r first (attempts_from env (suc r) (first + 1) m) (env.send w.tick m) w
          (subst (λ t. is_transient (env.send t m) ≡ true) here (before 0 (omega arith))) in
      let number : first + 1 + k ≡ first + suc k = omega arith in
      ap (λ (o : Result DeliveryResult × World). o.0) e
      ∙ decided (suc r) (first + 1) k (paused first hint w) (omega arith)
          (λ j lt.
            subst (λ t. is_transient (env.send t m) ≡ true) (shift w.tick j)
              (before (suc j) (omega arith)))
          (elim (last_at _ _ (suc (suc k)) (suc (suc r)) (shift w.tick k) last) [
            | inl x ↦ inl x
            | inr y ↦ inr (omega arith)
          ])
      ∙ ap₂ (λ a t. ok (ended env m a (env.send t m))) number (sym (shift w.tick k))

  -- The first answer that is not transient decides: if the answers before attempt `k + 1` are all
  -- transient, and its own is not or it is the last attempt allowed, the retries return after `k + 1`
  -- attempts, with status sent if that answer accepts, and failed with its error if not.
  pub send_with_retries-decided :
      (k : ℕ) (w : World)
      → k < env.delivery.max_attempts
      → ((j : ℕ) → j < k → is_transient (answer_to w.tick j) ≡ true)
      → (is_transient (answer_to w.tick k) ≡ false) ⊎ (suc k ≡ env.delivery.max_attempts)
      → (send_with_retries env m w).0 ≡ ok (ended env m (1 + k) (answer_to w.tick k))
  unfolding send_with_retries
  send_with_retries-decided k w h before last =
      decided env.delivery.max_attempts 1 k w h before last
