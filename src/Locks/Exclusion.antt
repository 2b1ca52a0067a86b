-- ===== src/Locks/Exclusion.antt =====
-- Who holds a lock of backend/app/infrastructure/cache/locks.py while other clients act.
use tg_bot.Base.{
  ℕ, ◌+◌, ◌≤◌, ◌<◌, ◌≡◌, ◌≢◌, refl, sym, ap, ◌∙◌, String, true, false, none, some, arith, inl, inr,
  Bool-cases, str_eq, eq_iff,
}
use tg_bot.Locks.Redis.{Redis}
use tg_bot.Locks.Manager.{px_of, holds, try_set, release}

module _ {Store : Type 0} (redis : Redis Store) (token : String) where
  -- What clients with other tokens than `token` can do, on any key: time passes, and one of them tries
  -- to take a lock or releases one.
  pub data Steps : Store → ℕ → Store → ℕ → Type 0 where
    stay : (s : Store) (t : ℕ) → Steps s t s t
    wait : (s r : Store) (t u v : ℕ) → t ≤ u → Steps s u r v → Steps s t r v
    take :
        (s r : Store) (t v : ℕ) (name other : String) (ttl : ℕ)
        → Steps (try_set redis s t name other ttl).1 t r v
        → Steps s t r v
    free :
        (s r : Store) (t v : ℕ) (name other : String)
        → other ≢ token
        → Steps (release redis s t name other).1 t r v
        → Steps s t r v

  Steps-le : {s r : Store} {t v : ℕ} → Steps s t r v → t ≤ v
  Steps-le (stay s t) = omega arith
  Steps-le (wait s r t u v h rest) = omega (arith, Steps-le rest)
  Steps-le (take s r t v name other ttl rest) = Steps-le rest
  Steps-le (free s r t v name other h rest) = Steps-le rest

  -- The key keeps its token from now up to `end`.
  abbrev Kept : Store → ℕ → ℕ → String → Type 0
  Kept s now end name = (u : ℕ) → now ≤ u → u < end → redis.get s u name ≡ some token

  str_ne : (a b : String) → str_eq a b ≡ false → a ≢ b
  str_ne a b miss same = let hit = (eq_iff a b).1 same in absurd (cc (hit, miss))

  taken-Kept :
      (s : Store) (t end : ℕ) (k name other : String) (ttl : ℕ)
      → Kept s t end k
      → Kept (try_set redis s t name other ttl).1 t end k
  unfolding try_set
  taken-Kept s t end k name other ttl kept u le lt = elim (Bool-cases (str_eq name k)) [
    | inl hit ↦
        let same : name ≡ k = (eq_iff name k).0 hit in
        let held : redis.get s t name ≡ some token =
          ap (redis.get s t) same ∙ kept t (omega arith) (omega arith) in
        rw (redis.set_taken s t name other token (px_of ttl) held) (kept u le lt)
    | inr miss ↦
        rw (redis.set_other s t u name k other (px_of ttl) (str_ne name k miss)) (kept u le lt)
  ]

  freed-Kept :
      (s : Store) (t end : ℕ) (k name other : String)
      → other ≢ token
      → Kept s t end k
      → Kept (release redis s t name other).1 t end k
  unfolding release
  freed-Kept s t end k name other differ kept u le lt = elim (Bool-cases (str_eq name k)) [
    | inl hit ↦
        let same : name ≡ k = (eq_iff name k).0 hit in
        let held : redis.get s t name ≡ some token =
          ap (redis.get s t) same ∙ kept t (omega arith) (omega arith) in
        elim (Bool-cases (str_eq token other)) [
          | inl own ↦ absurd (differ (sym ((eq_iff token other).0 own)))
          | inr foreign ↦ rw (held, foreign) (kept u le lt)
        ]
    | inr miss ↦ elim (Bool-cases (holds other (redis.get s t name))) [
      | inl own ↦ rw (own, redis.del_other s u name k (str_ne name k miss)) (kept u le lt)
      | inr foreign ↦ rw foreign (kept u le lt)
    ]
  ]

  Steps-Kept :
      {s r : Store} {t v : ℕ} (end : ℕ) (k : String)
      → Steps s t r v
      → Kept s t end k
      → Kept r v end k
  Steps-Kept end k (stay s t) kept = kept
  Steps-Kept end k (wait s r t u v h rest) kept =
      Steps-Kept end k rest (λ x le lt. kept x (omega arith) lt)
  Steps-Kept end k (take s r t v name other ttl rest) kept =
      Steps-Kept end k rest (taken-Kept s t end k name other ttl kept)
  Steps-Kept end k (free s r t v name other differ rest) kept =
      Steps-Kept end k rest (freed-Kept s t end k name other differ kept)

  -- After a client took a free lock, and whatever clients with other tokens then do on any keys, until
  -- its lifetime ends the lock still holds its token, every attempt to take it fails and changes
  -- nothing, and its own release frees it.
  pub try_set-exclusive :
      (s r : Store) (t v : ℕ) (name : String) (ttl : ℕ)
      → redis.get s t name ≡ none
      → Steps (try_set redis s t name token ttl).1 t r v
      → v < t + ttl
      → (redis.get r v name ≡ some token)
        × ((other : String) (life : ℕ) → try_set redis r v name other life ≡ (false, r))
        × (release redis r v name token ≡ (true, redis.del r name))
  unfolding try_set release
  try_set-exclusive s r t v name ttl absent steps early =
      let taken : Kept (try_set redis s t name token ttl).1 t (t + px_of ttl) name =
        λ u le lt. redis.set_live s t u name token (px_of ttl) absent le lt in
      let held : redis.get r v name ≡ some token =
        Steps-Kept (t + px_of ttl) name steps taken v (omega arith) (omega arith) in
      (
        held,
        λ other life. redis.set_taken r v name other token (px_of life) held,
        rw (held, (eq_iff token token).1 refl),
      )
