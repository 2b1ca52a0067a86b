-- ===== src/Delivery/Backoff.antt =====
-- `_backoff`: how long a pause between two attempts can be.
use Prim.Native.Nat.{min, max}
use tg_bot.Base.{ℕ, ◌+◌, ◌-◌, ◌*◌, ◌/◌, ◌^◌, ◌≤◌, ◌<◌, none, some, arith}
use tg_bot.World.{Env}
use tg_bot.Services.DeliveryService.{backoff}

-- a share of at most one million millionths is no more than the whole
share_le : (n ratio : ℕ) → ratio ≤ 1000000 → n * ratio / 1000000 ≤ n
share_le n ratio h = grind arith

-- the jittered pause lies within the spread round the nominal one
jitter_bounds :
    (n s draw : ℕ)
    → s ≤ n
    → draw < 1000000
    → (n ≤ (n * 1000000 + s * (draw * 2) - s * 1000000) / 1000000 + s)
      × ((n * 1000000 + s * (draw * 2) - s * 1000000) / 1000000 ≤ n + s)
jitter_bounds n s draw h d = (grind arith, grind arith)

-- With a jitter ratio of at most one and a draw below one, a pause without a hint is at most twice
-- `max_backoff`. With the provider's hint it is never shorter than the hint, and never longer than
-- the longer of the hint and twice `max_backoff`.
pub backoff_bounds :
    (env : Env) (draw attempt hint : ℕ)
    → draw < 1000000
    → env.delivery.jitter_ratio ≤ 1000000
    → (backoff env draw attempt none ≤ 2 * env.delivery.max_backoff)
      × (hint ≤ backoff env draw attempt (some hint))
      × (backoff env draw attempt (some hint) ≤ max hint (2 * env.delivery.max_backoff))
unfolding backoff
backoff_bounds env draw attempt hint d r =
    let s = env.delivery in
    let raw : ℕ =
      s.initial_backoff * s.backoff_multiplier ^ (attempt - 1) / 1000000 ^ (attempt - 1) in
    let nominal : ℕ = min raw s.max_backoff in
    let share = share_le nominal s.jitter_ratio r in
    let bounds = jitter_bounds nominal (nominal * s.jitter_ratio / 1000000) draw share d in
    let cap : nominal ≤ s.max_backoff = omega arith in
    (omega (arith, bounds.1), omega arith, omega (arith, bounds.1))
