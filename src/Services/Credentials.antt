-- ===== src/Services/Credentials.antt =====
-- Passwords and tokens: golang.org/x/crypto/bcrypt and github.com/golang-jwt/jwt. Times are
-- milliseconds; a NumericDate counts seconds.
use go_video.Prelude.{ℕ, ◌*◌, ◌≤◌, ◌<◌, ◌≡◌, Bool, true, Result, ok, Act}
use go_video.Prelude.Text.{Text, lit}
use go_video.Services.Sql.{Performs}

module _ {W S : Type 0} (view : W → S) where
  -- A hash is salted, so that generating one is an action; the error of a comparison says that the
  -- password is another one.
  pub record Passwords : Type 0 where
    pub generate : Text → Act W Text
    pub compare : Text → Text → Result (Unit {0})
    -- What was generated from a password matches that password.
    pub generate_lem :
        (password : Text) (w : W)
        → Performs view w
            (generate password w)
            (λ hash s. (compare hash password ≡ ok tt) × (s ≡ view w))

pub record Claims : Type 0 where
  pub account_id : ℕ
  pub username : Text
  pub expires_at : ℕ
  pub issued_at : ℕ
  pub not_before : ℕ

-- `parse` is given the name of the algorithm's key: an algorithm to the secret, or an error. It
-- answers the claims and token.Valid.
pub record Tokens : Type 0 where
  pub signed_string : Claims → Text → Result Text
  pub parse : Text → (Text → Result Text) → ℕ → Result (Claims × Bool)
  -- A token that was signed with the secret is read back from the second in which it becomes valid
  -- up to the one in which it expires.
  pub signed_string_lem :
      (c : Claims) (secret token : Text) (key : Text → Result Text) (now : ℕ)
      → signed_string c secret ≡ ok token
      → key (lit "HS256") ≡ ok secret
      → c.not_before * 1000 ≤ now
      → now < c.expires_at * 1000
      → (d : Claims) × (parse token key now ≡ ok (d, true)) × (d.account_id ≡ c.account_id)
