-- ===== src/Tests/Locking.antt =====
-- The theorems on the locks, at a Redis that keeps a value and its end for each key.
use tg_bot.Base.{
  ℕ, suc, ◌+◌, ◌*◌, ◌/◌, ◌≤◌, ◌<◌, ◌≡◌, ◌≢◌, refl, String, Bool, true, false, Option, none, some,
  ltb, if◌then◌else◌, str_eq, eq_iff, arith, inl, inr, Bool-cases,
}
use tg_bot.Locks.Redis.{Redis}
use tg_bot.Locks.Manager.{try_set, release, acquire}
use tg_bot.Locks.Exclusion.{Steps, wait, take, free, stay, try_set-exclusive}
use tg_bot.Locks.Waiting.{Waited, acquire_returns}

abbrev Keys : Type 0
Keys = String → Option (String × ℕ)

abbrev alive : ℕ → Option (String × ℕ) → Option String
alive t none = none
alive t (some (v, end)) = if ltb t end then some v else none

abbrev put : Keys → String → Option (String × ℕ) → Keys
put s k entry j = if str_eq k j then entry else s j

abbrev set_if_free : Option String → Keys → ℕ → String → String → ℕ → Bool × Keys
set_if_free none s t k token px = (true, put s k (some (token, t + px)))
set_if_free (some _) s t k token px = (false, s)

lt_true : (a b : ℕ) → a < b → ltb a b ≡ true
lt_true a b h = ground arith

lt_false : (a b : ℕ) → b ≤ a → ltb a b ≡ false
lt_false a b h = ground arith

same_key : (k : String) → str_eq k k ≡ true
same_key k = (eq_iff k k).1 refl

other_key : (k j : String) → k ≢ j → str_eq k j ≡ false
other_key k j differ = elim (Bool-cases (str_eq k j)) [
  | inl hit ↦ absurd (differ ((eq_iff k j).0 hit))
  | inr miss ↦ miss
]

set_if_free-other :
    (o : Option String) (s : Keys) (t : ℕ) (k j token : String) (px : ℕ)
    → k ≢ j
    → (set_if_free o s t k token px).1 j ≡ s j
set_if_free-other none s t k j token px differ = rw (other_key k j differ)
set_if_free-other (some v) s t k j token px differ = refl

abbrev keys : Redis Keys
keys = record {
  get = λ s t k. alive t (s k);
  del = λ s k. put s k none;
  set_nx_px = λ s t k token px. set_if_free (alive t (s k)) s t k token px;
  set_taken = λ s t k token v px e. rw e;
  set_free = λ s t k token px e. rw e;
  set_live = λ s t u k token px e le lt. rw (e, same_key k, lt_true u (t + px) lt);
  set_expired = λ s t u k token px e le. rw (e, same_key k, lt_false u (t + px) le);
  set_other =
      λ s t u k j token px differ. rw (set_if_free-other (alive t (s k)) s t k j token px differ);
  del_gone = λ s u k. rw (same_key k);
  del_other = λ s u k j differ. rw (other_key k j differ);
}

abbrev nothing : Keys
nothing k = none

-- `ann` takes the lock for a second; `bob` tries to take it and to release it half a second later.
abbrev taken : Keys
taken = (try_set keys nothing 0 "lock:p" "ann" 1000).1

abbrev tried : Keys
tried = (try_set keys taken 500 "lock:p" "bob" 1000).1

abbrev freed : Keys
freed = (release keys tried 500 "lock:p" "bob").1

abbrev ann_token : String
ann_token = "ann"

abbrev bob_token : String
bob_token = "bob"

bob_is_not_ann : bob_token ≢ ann_token
bob_is_not_ann same = let hit = (eq_iff bob_token ann_token).1 same in absurd (cc hit)

bob : Steps keys "ann" taken 0 freed 500
bob = wait taken freed 0 500 500 (omega arith) (
    take taken freed 500 500 "lock:p" "bob" 1000
      (free tried freed 500 500 "lock:p" "bob" bob_is_not_ann (stay freed 500)))

try_set-exclusive_example :
    (keys.get freed 500 "lock:p" ≡ some "ann")
    × ((other : String) (life : ℕ) → try_set keys freed 500 "lock:p" other life ≡ (false, freed))
    × (release keys freed 500 "lock:p" "ann" ≡ (true, keys.del freed "lock:p"))
try_set-exclusive_example =
    try_set-exclusive keys "ann" nothing freed 0 500 "lock:p" 1000 refl bob (omega arith)

acquire_returns_example :
    Waited keys
      (λ n. 50 * n)
      (λ n. 50 * n)
      (λ n s. s)
      "lock:p"
      "ann"
      1000
      (0 + 200)
      0
      (acquire keys
        (λ n. 50 * n)
        (λ n. 50 * n)
        (λ n s. s)
        "lock:p"
        "ann"
        1000
        (0 + 200)
        (suc (200 / 50 + 1))
        0
        taken)
acquire_returns_example =
    acquire_returns keys (λ n. 50 * n) (λ n. 50 * n) (λ n s. s) "lock:p" "ann" 1000
      (λ k. omega arith) 0 200 taken (omega arith)
