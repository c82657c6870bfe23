-- ===== src/Auth/Laws.antt =====
-- What the tokens of internal/auth/jwt.go are good for.
use go_video.Prelude.{
  pure, message, raise, not, Bool, subst, ℕ, ◌+◌, ◌≤◌, ◌≡◌, refl, sym, true, false, Result, ok, err,
  arith, ◌>>=◌, of_result, if◌then◌else◌,
}
use go_video.Prelude.Text.{Text, text_eq}
use go_video.Services.Credentials.{Claims}
use go_video.Services.Platform.{Platform, time_now}
use go_video.Services.Keeps.{Keeps-performs, Keeps, keeps_rules, Keeps-time_now}
use go_video.Entities.{State}
use go_video.Auth.{
  generate_refresh_token, claims_at, jwt_secret, key_of, generate_token, parse_token,
}

module _ {W : Type 0} {P : State → Type 0} (p : Platform W) where
  pub Keeps-generate_token : (id : ℕ) (name : Text) → Keeps p.view P (generate_token p id name)
  unfolding generate_token
  Keeps-generate_token id name = search (keeps_rules, Keeps-time_now)

  pub Keeps-generate_refresh_token : (id : ℕ) → Keeps p.view P (generate_refresh_token p id)
  unfolding generate_refresh_token
  Keeps-generate_refresh_token id =
      Keeps-performs _ _ (p.rand_read_lem 32) (λ w a s h post. subst P (sym post) h)

module _ {W : Type 0} (p : Platform W) where
  -- What was signed, if something was.
  generated :
      (id : ℕ) (name token : Text) (w : W) (secret : Result Text)
      → ((of_result secret >>= λ s.
            of_result (p.tokens.signed_string (claims_at (p.now w) id name) s))
          w).0
        ≡ ok token
      → (s : Text) × (secret ≡ ok s)
        × (p.tokens.signed_string (claims_at (p.now w) id name) s ≡ ok token)
  unfolding ◌>>=◌
  generated id name token w (ok s) h = (s, refl, h)
  generated id name token w (err e) h = absurd (cc h)

  -- A token that was generated is read back as its account's, from then on until a second before
  -- it is fifteen minutes old.
  pub parse_token-generate_token :
      (id : ℕ) (name token : Text) (w w' : W)
      → (generate_token p id name w).0 ≡ ok token
      → p.now w ≤ p.now w'
      → p.now w' + 1000 ≤ p.now w + 900000
      → (c : Claims) × ((parse_token p token w').0 ≡ ok c) × (c.account_id ≡ id)
  unfolding generate_token parse_token time_now ◌>>=◌ text_eq
  parse_token-generate_token id name token w w' h begun unfinished =
      let (s, has_secret, signed) = generated id name token w (jwt_secret p) h in
      let (d, read, same) =
        p.tokens.signed_string_lem (claims_at (p.now w) id name) s token (key_of p) (p.now w')
          signed has_secret (omega arith) (omega arith) in
      (d, rw read refl, same)

  read_same :
      (r : Result (Claims × Bool)) (w : W)
      → ((of_result r >>= λ (claims, valid).
            if not valid then raise (message "token has invalid claims") else pure claims)
          w).1
        ≡ w
  unfolding ◌>>=◌
  read_same (ok (claims, true)) w = refl
  read_same (ok (claims, false)) w = refl
  read_same (err e) w = refl

  -- Parsing a token changes nothing at all.
  pub parse_token_same : (token : Text) (w : W) → (parse_token p token w).1 ≡ w
  unfolding parse_token time_now ◌>>=◌
  parse_token_same token w = read_same (p.tokens.parse token (key_of p) (p.now w)) w
