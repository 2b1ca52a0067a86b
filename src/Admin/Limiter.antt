-- ===== src/Admin/Limiter.antt =====
-- backend/app/infrastructure/cache/rate_limit.py, and the login of
-- backend/app/api/v1/endpoints/auth.py that it protects. Times are in milliseconds. Redis, with
-- INCR, PTTL, PEXPIRE and DEL, is a parameter; the laws are those of its documentation.
use Prim.Native.Nat.{max}
use tg_bot.Base.{
  ℕ, suc, ◌+◌, ◌≤◌, ◌≡◌, String, Bool, true, false, Option, none, some, leb, ltb, if◌then◌else◌,
}
use tg_bot.Errors.{too_many_attempts}
use tg_bot.World.{Result, ok, err}

-- a key with this end is alive
abbrev pub before : ℕ → Option ℕ → Bool
before t none = true
before t (some end) = ltb t end

pub record Counters (Store : Type 0) : Type 0 where
  -- the value of a counter that is alive, with the time at which it expires
  pub look : Store → ℕ → String → Option (ℕ × Option ℕ)
  pub incr : Store → ℕ → String → Store
  pub pexpire : Store → ℕ → String → ℕ → Store
  pub del : Store → String → Store
  pub incr_new :
      (s : Store) (t u : ℕ) (k : String)
      → look s t k ≡ none
      → t ≤ u
      → look (incr s t k) u k ≡ some (1, none)
  pub incr_old :
      (s : Store) (t u : ℕ) (k : String) (n : ℕ) (end : Option ℕ)
      → look s t k ≡ some (n, end)
      → t ≤ u
      → look (incr s t k) u k ≡ (if before u end then some (suc n, end) else none)
  pub pexpire_look :
      (s : Store) (t u : ℕ) (k : String) (px n : ℕ) (end : Option ℕ)
      → look s t k ≡ some (n, end)
      → t ≤ u
      → look (pexpire s t k px) u k ≡ (if ltb u (t + px) then some (n, some (t + px)) else none)
  pub del_look : (s : Store) (t : ℕ) (k : String) → look (del s k) t k ≡ none

module _ {Store : Type 0} (redis : Counters Store) where
  -- what INCR answers, and whether PTTL answers with a negative number
  abbrev pub attempts : Option (ℕ × Option ℕ) → ℕ
  attempts none = 0
  attempts (some (n, end)) = n

  abbrev pub lacks_end : Option (ℕ × Option ℕ) → Bool
  lacks_end (some (n, some end)) = false
  lacks_end _ = true

  -- `hit`
  unfoldable pub hit : Store → ℕ → String → ℕ → ℕ → Bool × Store
  hit s t key limit window =
      let counted = redis.incr s t key in
      let entry = redis.look counted t key in
      (
        leb (attempts entry) limit,
        if lacks_end entry then redis.pexpire counted t key (max 1 window) else counted,
      )

  -- `reset`
  unfoldable pub reset : Store → String → Store
  reset s key = redis.del s key

  module _ {Tokens : Type 0} where
    abbrev pub after_login : String → Result Tokens → Store → Result Tokens × Store
    after_login key (ok tokens) s = (ok tokens, reset s key)
    after_login key (err e) s = (err e, s)

    -- the endpoint `login`, where `outcome` is what `AuthService.login` makes of the credentials
    unfoldable pub login_endpoint :
        ℕ → ℕ → Store → ℕ → String → Result Tokens → Result Tokens × Store
    login_endpoint limit window s t key outcome =
        let (allowed, s') = hit s t key limit window in
        if allowed then after_login key outcome s' else (err too_many_attempts, s')
