-- ===== src/Selling/Expiring.antt =====
-- `expire_pending` of backend/app/infrastructure/db/repositories/purchases.py.
use tg_bot.Base.{
  ◌≡◌, ◌≢◌, ◌<◌, ◌≤◌, ◌⊎◌, refl, ℕ, ◌+◌, Bool, true, false, none, List, [], ◌∷◌, map, length,
  select, find, if◌then◌else◌, arith, inl, inr, Bool-cases,
}
use tg_bot.Domain.{
  DateTime, Purchase, PurchaseStatus, pending, paid, delivered, refunded, expired, is_pending,
}
use tg_bot.World.{World, ok}
use tg_bot.Repository.PurchaseTable.{stale, expire, expire_pending}

abbrev pub awaiting : Purchase → Bool
awaiting p = is_pending p.status

expire-awaiting :
    (t : DateTime) (p : Purchase)
    → awaiting (expire t p) ≡ (if stale t p then false else awaiting p)
expire-awaiting t p = elim (Bool-cases (stale t p)) [ inl due ↦ rw due | inr young ↦ rw young ]

expire-stale : (t : DateTime) (p : Purchase) → stale t (expire t p) ≡ false
expire-stale t p = elim (Bool-cases (stale t p)) [
  | inl due ↦ rw due refl
  | inr young ↦ rw young young
]

nothing_due : (t : DateTime) (ps : List Purchase) → find (stale t) (map (expire t) ps) ≡ none
nothing_due t [] = refl
nothing_due t (p ∷ ps) = rw (expire-stale t p) (nothing_due t ps)

awaiting_split :
    (t : DateTime) (ps : List Purchase)
    → length (select awaiting ps)
      ≡ length (select (stale t) ps) + length (select awaiting (map (expire t) ps))
awaiting_split t [] = omega arith
awaiting_split t (p ∷ ps) = let rest = awaiting_split t ps in ground (arith, expire-awaiting t p)

-- The rows after expiring beside the rows before: a pending one created before the limit becomes
-- expired and keeps its other fields, any other stays as it is.
pub data Expired (older_than : DateTime) : List Purchase → List Purchase → Type 0 where
  none_left : Expired older_than [] []
  due :
      (p : Purchase) {ps qs : List Purchase}
      → p.status ≡ pending
      → p.created_at < older_than
      → Expired older_than ps qs
      → Expired older_than (p ∷ ps) (record p { status = expired } ∷ qs)
  kept :
      (p : Purchase) {ps qs : List Purchase}
      → (p.status ≢ pending) ⊎ (older_than ≤ p.created_at)
      → Expired older_than ps qs
      → Expired older_than (p ∷ ps) (p ∷ qs)

pending-is : (s : PurchaseStatus) → is_pending s ≡ true → s ≡ pending
pending-is pending h = refl
pending-is paid h = cc
pending-is delivered h = cc
pending-is refunded h = cc
pending-is expired h = cc

other_status : (s : PurchaseStatus) → is_pending s ≡ false → s ≢ pending
other_status s h e = let bad = (rw e at h) in cc bad

expire-Expired : (t : DateTime) (ps : List Purchase) → Expired t ps (map (expire t) ps)
expire-Expired t [] = none_left
expire-Expired t (p ∷ ps) = elim (Bool-cases (stale t p)) [
  | inl old ↦
      rw old (due p (pending-is p.status (ground arith)) (ground arith) (expire-Expired t ps))
  | inr young ↦ rw young (kept p (spared p young) (expire-Expired t ps))
]
  where
    spared : (p : Purchase) → stale t p ≡ false → (p.status ≢ pending) ⊎ (t ≤ p.created_at)
    spared p h = elim (Bool-cases (is_pending p.status)) [
      | inl waits ↦ inr (ground arith)
      | inr done ↦ inl (other_status p.status done)
    ]

-- Expiring turns each pending purchase created before the limit into an expired one, with its other
-- fields as they were, and leaves any other as it is. It returns their number: the pending ones before
-- are that many and the pending ones after, and none of those after is older than the limit.
pub expire_pending-count :
    (older_than : DateTime) (w : World)
    → (n : ℕ) × ((expire_pending older_than w).0 ≡ ok n)
      × Expired older_than w.db.purchases (expire_pending older_than w).1.db.purchases
      × (length (select awaiting w.db.purchases)
          ≡ n + length (select awaiting (expire_pending older_than w).1.db.purchases))
      × (find (stale older_than) (expire_pending older_than w).1.db.purchases ≡ none)
unfolding expire_pending
expire_pending-count t w = (
  length (select (stale t) w.db.purchases),
  refl,
  expire-Expired t w.db.purchases,
  awaiting_split t w.db.purchases,
  nothing_due t w.db.purchases,
)
