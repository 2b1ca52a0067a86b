-- ===== src/Api/Access.antt =====
-- Who gets past `get_current_admin`, and how the product endpoints can fail.
use tg_bot.Base.{
  ℕ, ◌<◌, ◌≡◌, ◌≢◌, refl, ap, ◌∙◌, String, Bool, true, false, Option, none, some, or_else, List,
  str_eq, eq_iff, arith, inl, inr, ◌⊎◌, Bool-cases, Option-cases,
}
use tg_bot.Errors.{Error, status_code, invalid_token, is_app_error}
use tg_bot.World.{Env, World, err, ◌>>=◌}
use tg_bot.Admin.Tokens.{
  TokenType, access, Claims, Outside, Settings, same_type, is_complete, identify, authenticate,
}
use tg_bot.Api.Endpoints.{
  AdminRequest, post, patch, read, delete, verify, resend, respond, endpoint, get_current_admin,
  answer_admin,
}

module _ {Store Token : Type 0} (out : Outside Store Token) (settings : Settings) where
  -- The credentials are a token that decodes now, to claims of an access token of the administrator
  -- that has not expired and was not revoked.
  pub record IsAdmitted (s : Store) (now : ℕ) (credentials : Option Token) : Type 0 where
    pub token : Token
    pub claims : Claims
    pub id : String
    pub presented : credentials ≡ some token
    pub decodes : out.decode now token ≡ some claims
    pub alive : now < claims.exp
    pub kind : claims.kind ≡ some access
    pub name : claims.sub ≡ some settings.admin_username
    pub has_id : claims.jti ≡ some id
    pub kept : out.exists s now id ≡ false

  access_kind : (k : Option TokenType) → same_type k access ≡ true → k ≡ some access
  access_kind none h = cc
  access_kind (some access) h = refl
  access_kind (some TokenType.refresh) h = cc

  -- The checks of `authenticate` let only such claims through.
  identified :
      (s : Store) (now : ℕ) (token : Token) (c : Claims)
      → out.decode now token ≡ some c
      → (identify out settings s now access c ≡ err invalid_token) ⊎ IsAdmitted s now (some token)
  identified s now token c d = elim (Bool-cases (same_type c.kind access)) [
    | inr other ↦ inl (rw other)
    | inl same ↦ elim (Option-cases c.jti) [
      | inl absent ↦ inl (rw (same, absent))
      | inr (id, has) ↦ elim (Option-cases c.sub) [
        | inl nobody ↦ inl (rw (same, has, nobody))
        | inr (subject, named) ↦ elim (Bool-cases (out.exists s now id)) [
          | inl gone ↦ inl (rw (same, has, named, gone))
          | inr live ↦ elim (Bool-cases (str_eq subject settings.admin_username)) [
            | inr foreign ↦ inl (rw (same, has, named, live, foreign))
            | inl own ↦ inr (record {
              token = token;
              claims = c;
              id = id;
              presented = refl;
              decodes = d;
              alive = out.decode_live now token c d;
              kind = access_kind c.kind same;
              name = named ∙ ap some ((eq_iff subject settings.admin_username).0 own);
              has_id = has;
              kept = live;
            })
          ]
        ]
      ]
    ]
  ]

  unauthenticated :
      (s : Store) (now : ℕ) (credentials : Option Token)
      → (get_current_admin out settings s now credentials ≡ err invalid_token)
        ⊎ IsAdmitted s now credentials
  unfolding get_current_admin authenticate
  unauthenticated s now none = inl refl
  unauthenticated s now (some token) = elim (Option-cases (out.decode now token)) [
    | inl bad ↦ inl (rw bad)
    | inr (c, d) ↦ elim (Bool-cases (is_complete out settings c)) [
      | inl all ↦ rw (d, all) (identified s now token c d)
      | inr lacking ↦ inl (rw (d, lacking))
    ]
  ]

module _ (env : Env) (malformed : List ℕ → Bool) {Store Token : Type 0} (out : Outside Store Token)
    (settings : Settings) where
  -- no endpoint does anything for a caller who is not the administrator
  turned_away :
      (request : AdminRequest) (w : World)
      → respond (endpoint env malformed (err invalid_token) request w) ≡ (401, w)
  unfolding endpoint status_code ◌>>=◌
  turned_away (post body) w = refl
  turned_away (patch id body) w = refl
  turned_away (read id) w = refl
  turned_away (delete id) w = refl
  turned_away (verify id) w = refl
  turned_away (resend id) w = refl

  -- A request to one of the six endpoints that read, create, change or delete a product, check a
  -- payment, or send a link again, whose body, if it has one, is JSON with the fields' types: either it
  -- carries a token that decodes, at this time, to claims of an access token of the administrator that
  -- has not expired and whose id is not revoked, or it is answered with 401 and changes nothing.
  pub answer_admin-IsAdmitted :
      (s : Store) (now : ℕ) (credentials : Option Token) (request : AdminRequest) (w : World)
      → (answer_admin env malformed out settings s now credentials request w ≡ (401, w))
        ⊎ IsAdmitted out settings s now credentials
  unfolding answer_admin
  answer_admin-IsAdmitted s now credentials request w =
      elim (unauthenticated out settings s now credentials) [
        | inl refused ↦ inl (rw refused (turned_away request w))
        | inr fine ↦ inr fine
      ]

pub app_error-status : (e : Error) → is_app_error e ≡ true → or_else (status_code e) 500 ≢ 500
unfolding status_code
app_error-status Error.service_unavailable h = omega arith
app_error-status e h = ground arith
