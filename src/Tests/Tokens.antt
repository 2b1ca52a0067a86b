-- ===== src/Tests/Tokens.antt =====
-- The theorems on the administrator's tokens, at a service whose tokens are their own claims.
use tg_bot.Base.{
  ℕ, ◌+◌, ◌*◌, ◌≤◌, ◌<◌, ◌≡◌, ◌≢◌, refl, subst, sym, ◌∙◌, String, true, false, Option, none, some,
  ltb, str_eq, eq_iff, if◌then◌else◌, arith, inl, inr, Bool-cases,
}
use tg_bot.Errors.{invalid_token}
use tg_bot.World.{ok, err}
use tg_bot.Admin.Tokens.{
  TokenType, refresh, Claims, TokenPair, Outside, Settings, authenticate, issue_pair, claims_of,
  revoke, refresh_tokens, logout,
}
use tg_bot.Admin.Revoking.{started, waited, left}
use tg_bot.Admin.Rotation.{refresh_tokens-once}

abbrev pub Revoked : Type 0
Revoked = String → ℕ

abbrev pub unexpired : ℕ → Claims → Option Claims
unexpired now c = if ltb now c.exp then some c else none

abbrev pub put : Revoked → String → ℕ → Revoked
put s k end j = if str_eq k j then end else s j

pub lt_true : (a b : ℕ) → a < b → ltb a b ≡ true
lt_true a b h = ground arith

pub unexpired-live :
    (now : ℕ) (token c : Claims) → unexpired now token ≡ some c → (token ≡ c) × (now < c.exp)
unexpired-live now token c e = elim (Bool-cases (ltb now token.exp)) [
  | inl live ↦
      let done = (rw live at e) in
      let same : token ≡ c = ground arith in
      (same, (rw same at (let h : now < token.exp = ground arith in h)))
  | inr late ↦ let bad = (rw late at e) in absurd (cc bad)
]

pub same_key : (k : String) → str_eq k k ≡ true
same_key k = (eq_iff k k).1 refl

pub other_key : (k j : String) → k ≢ j → str_eq k j ≡ false
other_key k j differ = elim (Bool-cases (str_eq k j)) [
  | inl hit ↦ absurd (differ ((eq_iff k j).0 hit))
  | inr miss ↦ miss
]

abbrev pub service : Outside Revoked Claims
service = record {
  encode = λ c. c;
  decode = unexpired;
  set_px = λ s t k px. put s k (t * 1000 + px);
  exists = λ s u k. ltb (u * 1000) (s k);
  decode_encode = λ c now h. rw (lt_true now c.exp h);
  decode_live = λ now token c e. (unexpired-live now token c e).1;
  decode_same =
      λ t u token c d e f. sym (unexpired-live t token c e).0 ∙ (unexpired-live u token d f).0;
  exists_set = λ s t u k px le lt. rw (same_key k, lt_true (u * 1000) (t * 1000 + px) lt);
  exists_other = λ s t u k j px differ. rw (other_key k j differ);
}

abbrev pub settings : Settings
settings = record { admin_username = "root"; access_ttl = 900; refresh_ttl = 604800 }

abbrev pub nothing : Revoked
nothing k = 0

abbrev token : Claims
token = claims_of service settings "root" refresh 604800 0 "r0"

abbrev pair : TokenPair Claims
pair = issue_pair service settings "root" 60 "a1" "r1"

abbrev rotated : Revoked
rotated = revoke service settings nothing 60 "r0"

first_rotation : refresh_tokens service settings nothing 60 token "a1" "r1" ≡ (ok pair, rotated)
unfolding refresh_tokens authenticate
first_rotation = refl

short : (c : Claims) → unexpired 60 token ≡ some c → c.exp ≤ 60 + 604800
short c e =
    subst (λ (x : Claims). x.exp ≤ 60 + 604800) (unexpired-live 60 token c e).0 (omega arith)

-- the pair that replaced the token logs out at 90
abbrev left_after : Revoked
left_after = (logout service settings rotated 90 pair.refresh_token).1

refresh_tokens-once_example :
    ((expected : TokenType)
      → authenticate service settings left_after 120 token expected ≡ err invalid_token)
    × ((x y : String)
        → refresh_tokens service settings left_after 120 token x y
          ≡ (err invalid_token, left_after))
refresh_tokens-once_example =
    refresh_tokens-once service settings nothing 60 120 token "a1" "r1" pair rotated left_after
      first_rotation short
      (waited (left pair.refresh_token (waited started (omega arith))) (omega arith))
