-- ===== src/Admin/Tokens.antt =====
-- `AuthService` of backend/app/services/auth.py, with the revocation list of
-- backend/app/infrastructure/cache/revocation.py. Times are in whole seconds,
-- as in the claims of a token.
use Prim.Native.Nat.{max}
use tg_bot.Base.{
  ℕ, ◌+◌, ◌*◌, ◌≤◌, ◌<◌, ◌≡◌, ◌≢◌, String, Bool, true, false, not, ◌&&◌, Option, none, some,
  is_some, str_eq, if◌then◌else◌,
}
use tg_bot.Errors.{authentication, invalid_token}
use tg_bot.World.{Result, ok, err}

pub data TokenType : Type 0 where
  access refresh : TokenType

-- The claims of a token that has `exp`. `kind` is none where the claim `type` is missing or unknown,
-- `iat` where it is missing, `jti` and `sub` where the claim is missing or not a text.
pub record Claims : Type 0 where
  pub sub : Option String
  pub iat : Option ℕ
  pub kind : Option TokenType
  pub jti : Option String
  pub exp : ℕ

pub record AdminIdentity : Type 0 where
  pub username : String
  pub token_id : String
  pub token_type : TokenType

pub record TokenPair (Token : Type 0) : Type 0 where
  pub access_token : Token
  pub refresh_token : Token
  pub access_expires_in : ℕ
  pub refresh_expires_in : ℕ

-- PyJWT, whose texts are opaque, under the shop's secret, algorithm and issuer: `decode` gives the
-- claims of a token that PyJWT verifies, without the option `require`. And Redis as a set of keys with
-- a lifetime in milliseconds.
pub record Outside (Store Token : Type 0) : Type 0 where
  pub encode : Claims → Token
  pub decode : ℕ → Token → Option Claims
  pub set_px : Store → ℕ → String → ℕ → Store
  pub exists : Store → ℕ → String → Bool
  -- What was encoded is decoded until it expires, and nothing is decoded after it expired.
  pub decode_encode : (c : Claims) (now : ℕ) → now < c.exp → decode now (encode c) ≡ some c
  pub decode_live : (now : ℕ) (token : Token) (c : Claims) → decode now token ≡ some c → now < c.exp
  -- The claims of a token do not change.
  pub decode_same :
      (t u : ℕ) (token : Token) (c d : Claims)
      → decode t token ≡ some c
      → decode u token ≡ some d
      → c ≡ d
  pub exists_set :
      (s : Store) (t u : ℕ) (key : String) (px : ℕ)
      → t ≤ u
      → u * 1000 < t * 1000 + px
      → exists (set_px s t key px) u key ≡ true
  pub exists_other :
      (s : Store) (t u : ℕ) (key other : String) (px : ℕ)
      → key ≢ other
      → exists (set_px s t key px) u other ≡ exists s u other

pub record Settings : Type 0 where
  pub admin_username : String
  pub access_ttl : ℕ
  pub refresh_ttl : ℕ

abbrev pub same_type : Option TokenType → TokenType → Bool
same_type (some access) access = true
same_type (some refresh) refresh = true
same_type _ _ = false

module _ {Store Token : Type 0} (out : Outside Store Token) (settings : Settings) where
  -- the checks of `authenticate` on the claims
  abbrev pub identify : Store → ℕ → TokenType → Claims → Result AdminIdentity
  identify s now expected c =
      if not (same_type c.kind expected) then err invalid_token else elim c.jti [
        | none ↦ err invalid_token
        | some id ↦ elim c.sub [
          | none ↦ err invalid_token
          | some subject ↦
              if out.exists s now id
              then err invalid_token
              else if not (str_eq subject settings.admin_username)
              then err invalid_token
              else ok (record { username = subject; token_id = id; token_type = expected })
        ]
      ]

  -- `options={"require": ["exp", "iat", "sub", "jti"]}` of `_decode`
  abbrev pub is_complete : Claims → Bool
  is_complete c = is_some c.iat && is_some c.sub && is_some c.jti

  abbrev pub required : Option Claims → Option Claims
  required none = none
  required (some c) = if is_complete c then some c else none

  -- `_decode`
  abbrev pub decoded : ℕ → Token → Option Claims
  decoded now token = required (out.decode now token)

  abbrev pub of_claims : Store → ℕ → TokenType → Option Claims → Result AdminIdentity
  of_claims s now expected none = err invalid_token
  of_claims s now expected (some c) = identify s now expected c

  unfoldable pub authenticate : Store → ℕ → Token → TokenType → Result AdminIdentity
  authenticate s now token expected = of_claims s now expected (decoded now token)

  -- `_encode`, with the id that `uuid4` gave
  abbrev pub claims_of : String → TokenType → ℕ → ℕ → String → Claims
  claims_of username kind ttl issued_at id = record {
    sub = some username;
    iat = some issued_at;
    kind = some kind;
    jti = some id;
    exp = issued_at + ttl;
  }

  unfoldable pub encode_token : String → TokenType → ℕ → ℕ → String → Token
  encode_token username kind ttl issued_at id =
      out.encode (claims_of username kind ttl issued_at id)

  -- `_issue_pair`
  unfoldable pub issue_pair : String → ℕ → String → String → TokenPair Token
  issue_pair username now access_id refresh_id = record {
    access_token = encode_token username access settings.access_ttl now access_id;
    refresh_token = encode_token username refresh settings.refresh_ttl now refresh_id;
    access_expires_in = settings.access_ttl;
    refresh_expires_in = settings.refresh_ttl;
  }

  -- `_revoke` of a refresh token
  unfoldable pub revoke : Store → ℕ → String → Store
  revoke s now id = out.set_px s now id (max 1 (settings.refresh_ttl * 1000))

  -- `login`, where `verified` is the hasher's verdict on the password
  unfoldable pub login : Bool → ℕ → String → String → String → Result (TokenPair Token)
  login verified now username access_id refresh_id =
      if str_eq username settings.admin_username && verified
      then ok (issue_pair settings.admin_username now access_id refresh_id)
      else err authentication

  abbrev pub rotate :
      Store → ℕ → String → String → Result AdminIdentity → Result (TokenPair Token) × Store
  rotate s now access_id refresh_id (ok who) =
      (ok (issue_pair who.username now access_id refresh_id), revoke s now who.token_id)
  rotate s now access_id refresh_id (err e) = (err e, s)

  unfoldable pub refresh_tokens :
      Store → ℕ → Token → String → String → Result (TokenPair Token) × Store
  refresh_tokens s now token access_id refresh_id =
      rotate s now access_id refresh_id (authenticate s now token refresh)

  abbrev pub leave : Store → ℕ → Result AdminIdentity → Result (Unit {0}) × Store
  leave s now (ok who) = (ok tt, revoke s now who.token_id)
  leave s now (err e) = (err e, s)

  unfoldable pub logout : Store → ℕ → Token → Result (Unit {0}) × Store
  logout s now token = leave s now (authenticate s now token refresh)
