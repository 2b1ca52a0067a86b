-- ===== src/Tests/Guessing.antt =====
-- The theorem on guessed passwords, at a Redis that keeps a counter and its end for each key.
use tg_bot.Base.{
  ℕ, suc, ◌+◌, ◌≡◌, refl, String, Option, none, some, [], ◌∷◌, ltb, if◌then◌else◌, str_eq, arith,
}
use tg_bot.Errors.{too_many_attempts}
use tg_bot.World.{Result, ok, err}
use tg_bot.Admin.Limiter.{Counters, before, login_endpoint}
use tg_bot.Admin.Guessing.{limited, guesses, login_endpoint-limited}
use tg_bot.Tests.Tokens.{same_key}

abbrev Entries : Type 0
Entries = String → Option (ℕ × Option ℕ)

abbrev alive : ℕ → Option (ℕ × Option ℕ) → Option (ℕ × Option ℕ)
alive t none = none
alive t (some (n, end)) = if before t end then some (n, end) else none

abbrev put : Entries → String → Option (ℕ × Option ℕ) → Entries
put s k entry j = if str_eq k j then entry else s j

abbrev grown : Option (ℕ × Option ℕ) → Option (ℕ × Option ℕ)
grown none = some (1, none)
grown (some (n, end)) = some (suc n, end)

abbrev ending : ℕ → Option (ℕ × Option ℕ) → Option (ℕ × Option ℕ)
ending at none = none
ending at (some (n, end)) = some (n, some at)

grown_old :
    (u n : ℕ) (end : Option ℕ) (o : Option (ℕ × Option ℕ))
    → o ≡ some (n, end)
    → alive u (grown o) ≡ (if before u end then some (suc n, end) else none)
grown_old u n end o e = rw e

ending_old :
    (u at n : ℕ) (end : Option ℕ) (o : Option (ℕ × Option ℕ))
    → o ≡ some (n, end)
    → alive u (ending at o) ≡ (if ltb u at then some (n, some at) else none)
ending_old u at n end o e = rw e

abbrev counters : Counters Entries
counters = record {
  look = λ s t k. alive t (s k);
  incr = λ s t k. put s k (grown (alive t (s k)));
  pexpire = λ s t k px. put s k (ending (t + px) (alive t (s k)));
  del = λ s k. put s k none;
  incr_new = λ s t u k e le. rw (same_key k, e);
  incr_old = λ s t u k n end e le. rw (same_key k) (grown_old u n end _ e);
  pexpire_look = λ s t u k px n end e le. rw (same_key k) (ending_old u (t + px) n end _ e);
  del_look = λ s t k. rw (same_key k);
}

abbrev empty : Entries
empty k = none

abbrev key : String
key = "login:10.0.0.1:root"

-- what the right password brings
abbrev logged_in : Result ℕ
logged_in = ok 7

-- two wrong passwords where two attempts are allowed, and then the right one
login_endpoint-limited_example :
    ((guesses counters key 2 300000 ℕ empty (1000 ∷ 2000 ∷ [])).0
      ≡ limited counters key 2 300000 ℕ 1 (1000 ∷ 2000 ∷ []))
    × ((login_endpoint counters 2 300000
          (guesses counters key 2 300000 ℕ empty (1000 ∷ 2000 ∷ [])).1
          3000
          key
          logged_in).0
        ≡ err too_many_attempts)
login_endpoint-limited_example =
    login_endpoint-limited counters key 2 300000 ℕ empty 1000 3000 (2000 ∷ []) logged_in refl
      (omega arith)
