-- ===== src/Locks/Manager.antt =====
-- `RedisLockManager`: `_acquire`, the release script, and `_release_safely`.
use Prim.Native.Nat.{max}
use tg_bot.Base.{
  ℕ, zero, suc, String, Bool, true, false, Option, none, some, leb, if◌then◌else◌, str_eq,
}
use tg_bot.Locks.Redis.{Redis}

-- `px=max(1, int(ttl * 1000))`, of a lifetime in milliseconds
abbrev pub px_of : ℕ → ℕ
px_of ttl = max 1 ttl

abbrev pub holds : String → Option String → Bool
holds token none = false
holds token (some v) = str_eq v token

module _ {Store : Type 0} (redis : Redis Store) where
  unfoldable pub try_set : Store → ℕ → String → String → ℕ → Bool × Store
  try_set s now name token ttl = redis.set_nx_px s now name token (px_of ttl)

  -- The release script, which Redis runs as one step: whether the key was deleted, and the store.
  unfoldable pub release : Store → ℕ → String → String → Bool × Store
  release s now name token =
      if holds token (redis.get s now name) then (true, redis.del s name) else (false, s)

  -- The loop of `_acquire`. Redis answers poll number `n` at its time `time n`, `monotonic()` is
  -- `checked n` after it, and `others n` is what the other clients did since the poll before. `none` stands for a loop that is still running.
  module _ (time checked : ℕ → ℕ) (others : ℕ → Store → Store) (name token : String) (ttl : ℕ) where
    abbrev pub polled : Bool → Bool × Store → Option (Bool × Store) → Option (Bool × Store)
    polled late (true, s) next = some (true, s)
    polled late (false, s) next = if late then some (false, s) else next

    unfoldable pub acquire : ℕ → ℕ → ℕ → Store → Option (Bool × Store)
    acquire deadline zero n s = none
    acquire deadline (suc fuel) n s =
        let answer = try_set (others n s) (time n) name token ttl in
        polled (leb deadline (checked n)) answer (acquire deadline fuel (suc n) answer.1)
