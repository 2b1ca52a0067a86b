-- ===== src/Locks/Waiting.antt =====
-- The wait of `_acquire`: how many polls it can take, and what its answer means.
use tg_bot.Base.{
  ℕ, zero, suc, ◌+◌, ◌*◌, ◌/◌, ◌≤◌, ◌<◌, ◌≡◌, String, Bool, true, false, Option, none, some, leb,
  arith, inl, inr, Bool-cases, Option-cases,
}
use tg_bot.Locks.Redis.{Redis}
use tg_bot.Locks.Manager.{px_of, try_set, acquire, polled}

-- `_RETRY_DELAY_SECONDS`, in milliseconds
abbrev pub retry_delay : ℕ
retry_delay = 50

module _ {Store : Type 0} (redis : Redis Store) (time checked : ℕ → ℕ) (others : ℕ → Store → Store)
    (name token : String) (ttl : ℕ) where
  -- How a wait ended at poll number `last`: with the lock taken on a free key, or at the deadline with
  -- the key still taken by somebody.
  pub record Waited (deadline n : ℕ) (out : Option (Bool × Store)) : Type 0 where
    pub answer : Bool
    pub store : Store
    pub last : ℕ
    pub before : Store
    pub returned : out ≡ some (answer, store)
    pub first_le : n ≤ last
    pub asked : try_set redis (others last before) (time last) name token ttl ≡ (answer, store)
    pub free : answer ≡ true → redis.get (others last before) (time last) name ≡ none
    pub taken :
        answer ≡ false
        → (deadline ≤ checked last)
          × ((v : String) × (redis.get (others last before) (time last) name ≡ some v))

  -- A poll succeeds just when the key is free.
  try_set-free :
      (s : Store) (t : ℕ) → (try_set redis s t name token ttl).0 ≡ true → redis.get s t name ≡ none
  unfolding try_set
  try_set-free s t h = elim (Option-cases (redis.get s t name)) [
    | inl absent ↦ absent
    | inr (v, held) ↦
        let refused = redis.set_taken s t name token v (px_of ttl) held in absurd (cc (h, refused))
  ]

  try_set-taken :
      (s : Store) (t : ℕ)
      → (try_set redis s t name token ttl).0 ≡ false
      → (v : String) × (redis.get s t name ≡ some v)
  unfolding try_set
  try_set-taken s t h = elim (Option-cases (redis.get s t name)) [
    | inl absent ↦
        let given = redis.set_free s t name token (px_of ttl) absent in absurd (cc (h, given))
    | inr found ↦ found
  ]

  later :
      (deadline n : ℕ) (out : Option (Bool × Store))
      → Waited deadline (suc n) out
      → Waited deadline n out
  later deadline n out w = record {
    answer = w.answer;
    store = w.store;
    last = w.last;
    before = w.before;
    returned = w.returned;
    first_le = let h = w.first_le in omega arith;
    asked = w.asked;
    free = w.free;
    taken = w.taken;
  }

  -- One poll: the end, or what the polls after it come to.
  polled-Waited :
      (deadline n : ℕ) (s : Store) (next : Option (Bool × Store))
      → (checked n < deadline → Waited deadline (suc n) next)
      → Waited deadline n (
          polled redis time checked others name token ttl
            (leb deadline (checked n))
            (try_set redis (others n s) (time n) name token ttl)
            next)
  polled-Waited deadline n s next rest =
      let answer = try_set redis (others n s) (time n) name token ttl in
      elim (Bool-cases answer.0) [
        | inl hit ↦ record {
          answer = true;
          store = answer.1;
          last = n;
          before = s;
          returned = rw hit;
          first_le = omega arith;
          asked = rw hit;
          free = λ _. try_set-free (others n s) (time n) hit;
          taken = λ bad. absurd (cc bad);
        }
        | inr miss ↦ elim (Bool-cases (leb deadline (checked n))) [
          | inl late ↦ record {
            answer = false;
            store = answer.1;
            last = n;
            before = s;
            returned = rw (miss, late);
            first_le = omega arith;
            asked = rw miss;
            free = λ bad. absurd (cc bad);
            taken = λ _. (ground arith, try_set-taken (others n s) (time n) miss);
          }
          | inr early ↦ rw (miss, early) (later deadline n next (rest (ground arith)))
        ]
      ]

  acquire-Waited :
      ((k : ℕ) → checked k + retry_delay ≤ checked (suc k))
      → (deadline f n : ℕ) (s : Store) → deadline ≤ checked n + retry_delay * f
      → Waited deadline n (acquire redis time checked others name token ttl deadline (suc f) n s)
  unfolding acquire
  acquire-Waited tick deadline zero n s h =
      polled-Waited deadline n s none (λ early. absurd (omega arith))
  acquire-Waited tick deadline (suc f) n s h = polled-Waited deadline n s _ (λ early.
      acquire-Waited tick deadline f (suc n) (try_set redis (others n s) (time n) name token ttl).1
        (let step = tick n in omega arith))

  -- Where `monotonic()` advances by at least 50 ms from poll to poll, a wait of `wait` milliseconds from
  -- `start` returns after at most `wait / 50 + 2` polls. It returns true just where the last poll found the key free,
  -- and false only once the deadline has come and the key is held even then.
  pub acquire_returns :
      ((k : ℕ) → checked k + retry_delay ≤ checked (suc k))
      → (start wait : ℕ) (s : Store) → start ≤ checked 0
      → Waited (start + wait) 0 (
          acquire redis time checked others name token ttl
            (start + wait)
            (suc (wait / retry_delay + 1))
            0
            s)
  acquire_returns tick start wait s h =
      acquire-Waited tick (start + wait) (wait / retry_delay + 1) 0 s (grind arith)
