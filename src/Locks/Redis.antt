-- ===== src/Locks/Redis.antt =====
-- What the locks use of Redis: GET, DEL, and SET with NX and PX, at a time in milliseconds. Redis and
-- its clock are not part of the repository; the laws are those of its documentation.
use tg_bot.Base.{ℕ, ◌+◌, ◌≤◌, ◌<◌, ◌≡◌, ◌≢◌, String, Bool, true, false, Option, none, some}

pub record Redis (Store : Type 0) : Type 0 where
  pub get : Store → ℕ → String → Option String
  pub del : Store → String → Store
  -- SET key token NX PX px: whether the key was set, and the store after it.
  pub set_nx_px : Store → ℕ → String → String → ℕ → Bool × Store
  -- SET with NX does nothing to a key that exists.
  pub set_taken :
      (s : Store) (t : ℕ) (k token v : String) (px : ℕ)
      → get s t k ≡ some v
      → set_nx_px s t k token px ≡ (false, s)
  pub set_free :
      (s : Store) (t : ℕ) (k token : String) (px : ℕ)
      → get s t k ≡ none
      → (set_nx_px s t k token px).0 ≡ true
  -- A key that was set has its value until PX has passed.
  pub set_live :
      (s : Store) (t u : ℕ) (k token : String) (px : ℕ)
      → get s t k ≡ none
      → t ≤ u
      → u < t + px
      → get (set_nx_px s t k token px).1 u k ≡ some token
  pub set_expired :
      (s : Store) (t u : ℕ) (k token : String) (px : ℕ)
      → get s t k ≡ none
      → t + px ≤ u
      → get (set_nx_px s t k token px).1 u k ≡ none
  pub set_other :
      (s : Store) (t u : ℕ) (k j token : String) (px : ℕ)
      → k ≢ j
      → get (set_nx_px s t k token px).1 u j ≡ get s u j
  pub del_gone : (s : Store) (u : ℕ) (k : String) → get (del s k) u k ≡ none
  pub del_other : (s : Store) (u : ℕ) (k j : String) → k ≢ j → get (del s k) u j ≡ get s u j
