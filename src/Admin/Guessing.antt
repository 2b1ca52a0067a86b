-- ===== src/Admin/Guessing.antt =====
-- How often a password can be guessed within one window.
use Prim.Native.Nat.{max}
use tg_bot.Base.{
  ℕ, suc, ◌+◌, ◌≤◌, ◌<◌, ◌≡◌, refl, ◌∙◌, String, true, none, some, List, [], ◌∷◌, ◌++◌, length, leb,
  ltb, if◌then◌else◌, arith, inl, inr, Bool-cases,
}
use tg_bot.Errors.{authentication, too_many_attempts}
use tg_bot.World.{Result, ok, err}
use tg_bot.Admin.Limiter.{Counters, hit, login_endpoint}

module _ {Store : Type 0} (redis : Counters Store) (key : String) (limit window : ℕ) where
  -- A key with `n` attempts in a window that ends at `end`, whenever it is looked at from `t` on.
  abbrev Counted : Store → ℕ → ℕ → ℕ → Type 0
  Counted s t n end =
      (u : ℕ) → t ≤ u → redis.look s u key ≡ (if ltb u end then some (n, some end) else none)

  first_hit :
      (s : Store) (t : ℕ)
      → redis.look s t key ≡ none
      → ((hit redis s t key limit window).0 ≡ leb 1 limit)
        × Counted (hit redis s t key limit window).1 t 1 (t + max 1 window)
  unfolding hit
  first_hit s t free =
      let here = redis.incr_new s t t key free (omega arith) in
      (
        rw here,
        λ u le.
            rw here (redis.pexpire_look (redis.incr s t key) t u key (max 1 window) 1 none here le),
      )

  next_hit :
      (s : Store) (t u n end : ℕ)
      → Counted s t n end
      → t ≤ u
      → u < end
      → ((hit redis s u key limit window).0 ≡ leb (suc n) limit)
        × Counted (hit redis s u key limit window).1 u (suc n) end
  unfolding hit
  next_hit s t u n end c le lt =
      let alive : ltb u end ≡ true = ground arith in
      let old = (rw alive at (c u le)) in
      let here = (rw alive at (redis.incr_old s u u key n (some end) old (omega arith))) in
      (rw here, λ v le'. rw here (redis.incr_old s u v key n (some end) old le'))

  -- times that do not go back, from `t` on and before `end`
  abbrev pub Within : ℕ → ℕ → List ℕ → Type 0
  Within t end [] = Unit
  Within t end (u ∷ us) = (t ≤ u) × (u < end) × Within u end us

  module _ (Tokens : Type 0) where
    -- the answers to wrong passwords, one after another
    abbrev pub guesses : Store → List ℕ → List (Result Tokens) × Store
    guesses s [] = ([], s)
    guesses s (t ∷ ts) =
        let (r, s') = login_endpoint redis limit window s t key (err authentication) in
        let (rs, s'') = guesses s' ts in (r ∷ rs, s'')

    -- The answers that the limit asks for, from the given number of the attempt on.
    abbrev pub limited : ℕ → List ℕ → List (Result Tokens)
    limited n [] = []
    limited n (t ∷ ts) =
        let rest = limited (suc n) ts in
        (if leb n limit then err authentication else err too_many_attempts) ∷ rest

    refused_login :
        (s : Store) (u n : ℕ) (outcome : Result Tokens)
        → (hit redis s u key limit window).0 ≡ leb n limit
        → (login_endpoint redis limit window s u key outcome).0
          ≡ (if leb n limit then outcome else err too_many_attempts)
    unfolding login_endpoint
    refused_login s u n (ok tokens) h = elim (Bool-cases (leb n limit)) [
      | inl free ↦ let e = h ∙ free in rw (e, free)
      | inr full ↦ let e = h ∙ full in rw (e, full)
    ]
    refused_login s u n (err x) h = elim (Bool-cases (leb n limit)) [
      | inl free ↦ let e = h ∙ free in rw (e, free)
      | inr full ↦ let e = h ∙ full in rw (e, full)
    ]

    abbrev wrong : Result Tokens
    wrong = err authentication

    wrong_login-store :
        (s : Store) (u : ℕ)
        → (login_endpoint redis limit window s u key wrong).1 ≡ (hit redis s u key limit window).1
    unfolding login_endpoint
    wrong_login-store s u = elim (Bool-cases (hit redis s u key limit window).0) [
      | inl free ↦ rw free
      | inr full ↦ rw full
    ]

    later_guesses :
        (ts : List ℕ) (s : Store) (t n end u : ℕ) (outcome : Result Tokens)
        → Counted s t n end
        → Within t end (ts ++ u ∷ [])
        → ((guesses s ts).0 ≡ limited (suc n) ts)
          × ((login_endpoint redis limit window (guesses s ts).1 u key outcome).0
              ≡ (if leb (suc (n + length ts)) limit then outcome else err too_many_attempts))
    later_guesses [] s t n end u outcome c within =
        let (answer, _) = next_hit s t u n end c within.0 within.1 in
        let same : suc (n + 0) ≡ suc n = omega arith in
        (refl, rw same (refused_login s u (suc n) outcome answer))
    later_guesses (v ∷ ts) s t n end u outcome c within =
        let (answer, c') = next_hit s t v n end c within.0 within.1 in
        let (rest, last) =
          later_guesses ts (hit redis s v key limit window).1 v (suc n) end u outcome c' within.2 in
        let same : suc (n + suc (length ts)) ≡ suc (suc n + length ts) = omega arith in
        (
          rw (refused_login s v (suc n) wrong answer, wrong_login-store s v, rest),
          rw (wrong_login-store s v, same) last,
        )

    -- A client key without a counter, and attempts to log in at times that do not go back, all
    -- within one window from the first: of the wrong passwords exactly the first `limit` are answered as
    -- wrong, the others with 429 and unchecked; and a last attempt is answered by
    -- its own credentials where with it no more than `limit` attempts have been made, and with 429, however
    -- right its password, where there are more.
    pub login_endpoint-limited :
        (s : Store) (t u : ℕ) (ts : List ℕ) (outcome : Result Tokens)
        → redis.look s t key ≡ none
        → Within t (t + max 1 window) (ts ++ u ∷ [])
        → ((guesses s (t ∷ ts)).0 ≡ limited 1 (t ∷ ts))
          × ((login_endpoint redis limit window (guesses s (t ∷ ts)).1 u key outcome).0
              ≡ (if leb (suc (length (t ∷ ts))) limit then outcome else err too_many_attempts))
    login_endpoint-limited s t u ts outcome free within =
        let (answer, c) = first_hit s t free in
        let (rest, last) =
          later_guesses ts (hit redis s t key limit window).1 t 1 (t + max 1 window) u outcome c
            within in
        let same : suc (1 + length ts) ≡ suc (suc (length ts)) = omega arith in
        (
          rw (refused_login s t 1 wrong answer, wrong_login-store s t, rest),
          rw (wrong_login-store s t) (rw same at last),
        )
