-- ===== src/Admin/Rotation.antt =====
-- What `refresh` and `_issue_pair` of backend/app/services/auth.py do to the tokens.
use tg_bot.Base.{
  ℕ, ◌+◌, ◌≤◌, ◌<◌, ◌≡◌, refl, ap, ◌∙◌, subst, sym, String, some, arith, inl, inr, Option-cases,
}
use tg_bot.Errors.{invalid_token}
use tg_bot.World.{ok, err}
use tg_bot.Admin.Tokens.{
  TokenType, refresh, Claims, TokenPair, Outside, Settings, authenticate, refresh_tokens,
}
use tg_bot.Admin.Revoking.{
  authenticate-claims, undecoded, gone-refused, rotate-ok, History, Barred, revoke-Barred,
  History-Barred,
}

module _ {Store Token : Type 0} (out : Outside Store Token) (settings : Settings) where
  rotated-refused :
      (s : Store) (t u : ℕ) (token : Token) (a b : String) (pair : TokenPair Token) (s' z : Store)
      → refresh_tokens out settings s t token a b ≡ (ok pair, s')
      → ((c : Claims) → out.decode t token ≡ some c → c.exp ≤ t + settings.refresh_ttl)
      → History out settings s' t z u
      → (expected : TokenType) → authenticate out settings z u token expected ≡ err invalid_token
  unfolding refresh_tokens
  rotated-refused s t u token a b pair s' z h short past expected =
      let (who, checked, revoked) =
        rotate-ok out settings s t a b (authenticate out settings s t token refresh) pair s' h in
      let (c, good, has) = authenticate-claims out settings s t token refresh who checked in
      let barred : Barred out settings who.token_id c.exp s' t =
        subst (λ (x : Store). Barred out settings who.token_id c.exp x t) revoked
          (revoke-Barred out settings who.token_id who.token_id c.exp s t (short c good)
            (inl refl)) in
      elim (Option-cases (out.decode u token)) [
        | inl expired ↦ undecoded out settings z u token expected expired
        | inr (d, again) ↦
            let same = out.decode_same t u token c d good again in
            let live = out.decode_live u token d again in
            let early : u < c.exp = subst (λ (x : Claims). u < x.exp) (sym same) live in
            gone-refused out settings z u token who.token_id c expected (again ∙ ap some (sym same))
              has
              (History-Barred out settings who.token_id c.exp (short c good) barred past u
                (omega arith) early)
      ]

  -- A refresh token that was rotated is refused ever after, whatever rotations and logouts follow: as a
  -- token of either kind and for another rotation, if it expires within the lifetime of refresh tokens,
  -- as those that the service issues do.
  pub refresh_tokens-once :
      (s : Store) (t u : ℕ) (token : Token) (a b : String) (pair : TokenPair Token) (s' z : Store)
      → refresh_tokens out settings s t token a b ≡ (ok pair, s')
      → ((c : Claims) → out.decode t token ≡ some c → c.exp ≤ t + settings.refresh_ttl)
      → History out settings s' t z u
      → ((expected : TokenType) → authenticate out settings z u token expected ≡ err invalid_token)
        × ((x y : String) → refresh_tokens out settings z u token x y ≡ (err invalid_token, z))
  unfolding refresh_tokens
  refresh_tokens-once s t u token a b pair s' z h short past =
      let refused : (expected : TokenType)
          → authenticate out settings z u token expected ≡ err invalid_token =
        rotated-refused s t u token a b pair s' z h short past in
      (refused, λ x y. rw (refused refresh))
