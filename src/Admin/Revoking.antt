-- ===== src/Admin/Revoking.antt =====
-- What rotations and logouts of backend/app/services/auth.py leave in the list of revoked ids.
use Prim.Native.Nat.{max}
use tg_bot.Base.{
  ℕ, ◌+◌, ◌*◌, ◌≤◌, ◌<◌, ◌≡◌, refl, ap, ◌∙◌, subst, String, true, not, none, some, str_eq, eq_iff,
  arith, inl, inr, ◌⊎◌, Bool-cases, Option-cases,
}
use tg_bot.Errors.{invalid_token}
use tg_bot.World.{Result, ok, err}
use tg_bot.Admin.Tokens.{
  TokenType, refresh, Claims, AdminIdentity, TokenPair, Outside, Settings, same_type, identify,
  authenticate, revoke, refresh_tokens, rotate, is_complete, leave, logout,
}

module _ {Store Token : Type 0} (out : Outside Store Token) (settings : Settings) where
  identify-jti :
      (s : Store) (now : ℕ) (expected : TokenType) (c : Claims) (who : AdminIdentity)
      → identify out settings s now expected c ≡ ok who
      → c.jti ≡ some who.token_id
  identify-jti s now expected c who h = elim (Bool-cases (not (same_type c.kind expected))) [
    | inl other ↦ let bad = (rw other at h) in absurd (cc bad)
    | inr same ↦ elim (Option-cases c.jti) [
      | inl none_given ↦ let bad = (rw (same, none_given) at h) in absurd (cc bad)
      | inr (id, has) ↦ elim (Option-cases c.sub) [
        | inl nobody ↦ let bad = (rw (same, has, nobody) at h) in absurd (cc bad)
        | inr (subject, named) ↦ elim (Bool-cases (out.exists s now id)) [
          | inl gone ↦ let bad = (rw (same, has, named, gone) at h) in absurd (cc bad)
          | inr live ↦ elim (Bool-cases (not (str_eq subject settings.admin_username))) [
            | inl foreign ↦ let bad = (rw (same, has, named, live, foreign) at h) in absurd (cc bad)
            | inr own ↦
                let done = (rw (same, has, named, live, own) at h) in
                let equal : id ≡ who.token_id = ground arith in has ∙ ap some equal
          ]
        ]
      ]
    ]
  ]

  -- An identity comes from claims that decode, and carries their id.
  pub authenticate-claims :
      (s : Store) (now : ℕ) (token : Token) (expected : TokenType) (who : AdminIdentity)
      → authenticate out settings s now token expected ≡ ok who
      → (c : Claims) × (out.decode now token ≡ some c) × (c.jti ≡ some who.token_id)
  unfolding authenticate
  authenticate-claims s now token expected who h = elim (Option-cases (out.decode now token)) [
    | inl bad ↦ let e = (rw bad at h) in absurd (cc e)
    | inr (c, good) ↦ elim (Bool-cases (is_complete out settings c)) [
      | inl all ↦ (c, good, identify-jti s now expected c who (rw (good, all) at h))
      | inr lacking ↦ let e = (rw (good, lacking) at h) in absurd (cc e)
    ]
  ]

  pub undecoded :
      (s : Store) (u : ℕ) (token : Token) (expected : TokenType)
      → out.decode u token ≡ none
      → authenticate out settings s u token expected ≡ err invalid_token
  unfolding authenticate
  undecoded s u token expected e = rw e

  -- A token whose id is revoked is refused.
  pub gone-refused :
      (s : Store) (u : ℕ) (token : Token) (id : String) (c : Claims) (expected : TokenType)
      → out.decode u token ≡ some c
      → c.jti ≡ some id
      → out.exists s u id ≡ true
      → authenticate out settings s u token expected ≡ err invalid_token
  unfolding authenticate
  gone-refused s u token id c expected good has gone =
      elim (Bool-cases (is_complete out settings c)) [
        | inr lacking ↦ rw (good, lacking)
        | inl all ↦ elim (Bool-cases (not (same_type c.kind expected))) [
          | inl other ↦ rw (good, all, other)
          | inr same ↦ elim (Option-cases c.sub) [
            | inl nobody ↦ rw (good, all, same, has, nobody)
            | inr (subject, named) ↦ rw (good, all, same, has, named, gone)
          ]
        ]
      ]

  pub rotate-ok :
      (s : Store) (t : ℕ) (a b : String) (r : Result AdminIdentity) (pair : TokenPair Token)
      (s' : Store)
      → rotate out settings s t a b r ≡ (ok pair, s')
      → (who : AdminIdentity) × (r ≡ ok who) × (revoke out settings s t who.token_id ≡ s')
  rotate-ok s t a b (ok who) pair s' h = (who, refl, ground arith)
  rotate-ok s t a b (err e) pair s' h = absurd (cc h)

  -- What the service does to the revocations after a moment: rotations and logouts with whatever
  -- tokens, at moments that do not go back. A login leaves them alone.
  pub data History (s : Store) (t : ℕ) : Store → ℕ → Type 0 where
    started : History s t s t
    waited : {s' : Store} {u v : ℕ} → History s t s' u → u ≤ v → History s t s' v
    rotated :
        {s' : Store} {u : ℕ} (token : Token) (a b : String)
        → History s t s' u
        → History s t (refresh_tokens out settings s' u token a b).1 u
    left :
        {s' : Store} {u : ℕ} (token : Token)
        → History s t s' u
        → History s t (logout out settings s' u token).1 u

  -- the id is revoked from a moment until the end of a token
  abbrev pub Barred : String → ℕ → Store → ℕ → Type 0
  Barred id end s t = (v : ℕ) → t ≤ v → v < end → out.exists s v id ≡ true

  pub revoke-Barred :
      (id key : String) (end : ℕ) (s : Store) (t : ℕ)
      → end ≤ t + settings.refresh_ttl
      → (key ≡ id) ⊎ Barred id end s t
      → Barred id end (revoke out settings s t key) t
  unfolding revoke
  revoke-Barred id key end s t short barred v le lt = elim (Bool-cases (str_eq key id)) [
    | inl hit ↦
        let same : key ≡ id = (eq_iff key id).0 hit in
        subst (λ (k : String). out.exists (revoke out settings s t key) v k ≡ true) same
          (out.exists_set s t v key (max 1 (settings.refresh_ttl * 1000)) le (omega arith))
    | inr miss ↦ elim barred [
      | inl same ↦
          let hit : str_eq key id ≡ true = (eq_iff key id).1 same in absurd (cc (hit, miss))
      | inr before ↦
          out.exists_other s t v key id (max 1 (settings.refresh_ttl * 1000)) (λ same.
            let hit : str_eq key id ≡ true = (eq_iff key id).1 same in absurd (cc (hit, miss)))
          ∙ before v le lt
    ]
  ]

  rotate-Barred :
      (id : String) (end : ℕ) (s : Store) (t : ℕ) (a b : String) (r : Result AdminIdentity)
      → end ≤ t + settings.refresh_ttl
      → Barred id end s t
      → Barred id end (rotate out settings s t a b r).1 t
  rotate-Barred id end s t a b (ok who) short h =
      revoke-Barred id who.token_id end s t short (inr h)
  rotate-Barred id end s t a b (err e) short h = h

  leave-Barred :
      (id : String) (end : ℕ) (s : Store) (t : ℕ) (r : Result AdminIdentity)
      → end ≤ t + settings.refresh_ttl
      → Barred id end s t
      → Barred id end (leave out settings s t r).1 t
  leave-Barred id end s t (ok who) short h = revoke-Barred id who.token_id end s t short (inr h)
  leave-Barred id end s t (err e) short h = h

  pub History-later : {s : Store} {t : ℕ} {s' : Store} {u : ℕ} → History s t s' u → t ≤ u
  History-later started = omega arith
  History-later (waited h le) = omega (arith, History-later h)
  History-later (rotated token a b h) = History-later h
  History-later (left token h) = History-later h

  pub History-Barred :
      (id : String) (end : ℕ) {s : Store} {t : ℕ} {s' : Store} {u : ℕ}
      → end ≤ t + settings.refresh_ttl
      → Barred id end s t
      → History s t s' u
      → Barred id end s' u
  unfolding refresh_tokens logout
  History-Barred id end short h started = h
  History-Barred id end short h (waited past le) =
      λ v le' lt. History-Barred id end short h past v (omega arith) lt
  History-Barred id end short h (rotated {s'} {u} token a b past) =
      let later = History-later past in
      rotate-Barred id end s' u a b (authenticate out settings s' u token refresh) (omega arith)
        (History-Barred id end short h past)
  History-Barred id end short h (left {s'} {u} token past) =
      let later = History-later past in
      leave-Barred id end s' u (authenticate out settings s' u token refresh) (omega arith)
        (History-Barred id end short h past)
