-- ===== src/Auth.antt =====
-- internal/auth/jwt.go.
pub mod Laws
use go_video.Prelude.{
  ℕ, ◌+◌, ◌/◌, Bool, true, false, not, Result, ok, err, message, Act, pure, raise, of_result, ◌>>=◌,
  if◌then◌else◌,
}
use go_video.Prelude.Text.{Text, lit, text_eq, is_empty, trim_space}
use go_video.Services.Credentials.{Claims}
use go_video.Services.Platform.{Platform, time_now}

-- Fifteen minutes, in milliseconds.
abbrev pub jwt_expire : ℕ
jwt_expire = 900000

-- SetJWTSecret: the secret that is kept.
abbrev pub set_jwt_secret : Text → Result Text
set_jwt_secret secret =
    if is_empty (trim_space secret)
    then err (message "jwt secret is required")
    else ok (trim_space secret)

abbrev pub claims_at : ℕ → ℕ → Text → Claims
claims_at now account_id username = record {
  account_id = account_id;
  username = username;
  expires_at = (now + jwt_expire) / 1000;
  issued_at = now / 1000;
  not_before = now / 1000;
}

module _ {W : Type 0} (p : Platform W) where
  abbrev pub jwt_secret : Result Text
  jwt_secret =
      if is_empty p.jwt_signing_secret
      then err (message "jwt secret is not initialized")
      else ok p.jwt_signing_secret

  unfoldable pub generate_token : ℕ → Text → Act W Text
  generate_token account_id username = do
    now ← time_now p
    secret ← of_result jwt_secret
    of_result (p.tokens.signed_string (claims_at now account_id username) secret)

  unfoldable pub generate_refresh_token : ℕ → Act W Text
  generate_refresh_token account_id = p.rand_read 32

  -- The key for an algorithm: the callback of ParseToken.
  abbrev pub key_of : Text → Result Text
  key_of alg =
      if text_eq alg (lit "HS256") then jwt_secret else err (message "unexpected signing method")

  unfoldable pub parse_token : Text → Act W Claims
  parse_token token_str = do
    now ← time_now p
    (claims, valid) ← of_result (p.tokens.parse token_str key_of now)
    if not valid then raise (message "token has invalid claims") else pure claims
