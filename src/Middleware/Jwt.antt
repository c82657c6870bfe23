-- ===== src/Middleware/Jwt.antt =====
-- internal/middleware/jwt/jwt.go. A request's header comes in, and its outcome goes out: it passes,
-- with the claims in its context or without, or it is answered with 401.
mod Tests
pub mod Access
pub mod Stale
use go_video.Prelude.{
  ℕ, ◌+◌, ◌==◌, leb, Option, none, some, List, [], ◌∷◌, map, Bool, ◌&&◌, ◌||◌, not, Result, ok, err,
  Act, pure, attempt, ◌>>=◌, ◌>>◌, if◌then◌else◌,
}
use go_video.Prelude.Text.{Text, lit, text_eq, is_empty}
use go_video.Services.Credentials.{Claims}
use go_video.Services.Redis.{account_token}
use go_video.Services.Platform.{Platform}
use go_video.Entities.{Account}
use go_video.Entities.Schemas.{Cache}
use go_video.Auth.{parse_token}
use go_video.Api.Account.{find_account}
use go_video.Api.Account.Service.{day}

pub data Outcome : Type 0 where
  passed : Outcome
  passed_as : ℕ → Text → Outcome
  unauthorized : Text → Outcome

abbrev pub pass : Claims → Outcome
pass claims = passed_as claims.account_id claims.username

-- strings.SplitN(header, " ", 2), where both parts are there
pub split_space : Text → Option (Text × Text)
split_space [] = none
split_space (c ∷ cs) = if c == 32 then some ([], cs) else add_first c (split_space cs)
  where
    add_first : ℕ → Option (Text × Text) → Option (Text × Text)
    add_first a none = none
    add_first a (some (b, r)) = some (a ∷ b, r)

-- Folding of ASCII letters; no other letter folds to one of "Bearer".
abbrev pub to_lower : ℕ → ℕ
to_lower c = if leb 65 c && leb c 90 then c + 32 else c

abbrev pub is_bearer : Text → Bool
is_bearer s = text_eq (map to_lower s) (lit "bearer")

module _ {W : Type 0} (p : Platform W) where
  cache_again : Option (Cache p.view) → ℕ → Text → Act W (Unit {0})
  cache_again none id token = pure tt
  cache_again (some cache) id token = do attempt (cache.set (account_token id) token day); pure tt

  by_account : Claims → Text → Result Account → Act W Outcome
  unfolding cache_again
  by_account claims token_str (err e) = pure (unauthorized (lit "token has been revoked"))
  by_account claims token_str (ok account) =
      if is_empty account.token || not (text_eq account.token token_str)
      then pure (unauthorized (lit "token has been revoked"))
      else (do cache_again p.redis claims.account_id token_str; pure (pass claims))

  -- The check against the accounts table.
  pub check_stored : Claims → Text → Act W Outcome
  unfolding by_account
  check_stored claims token_str = do
    found ← attempt (find_account p claims.account_id)
    by_account claims token_str found

  by_entry : Claims → Text → Result Text → Act W Outcome
  unfolding check_stored
  by_entry claims token_str (ok bytes) =
      if not (text_eq bytes token_str)
      then pure (unauthorized (lit "token has been revoked"))
      else pure (pass claims)
  by_entry claims token_str (err e) = check_stored claims token_str

  check_cached : Option (Cache p.view) → Claims → Text → Act W Outcome
  unfolding by_entry
  check_cached none claims token_str = check_stored claims token_str
  check_cached (some cache) claims token_str = do
    found ← attempt (cache.get (account_token claims.account_id))
    by_entry claims token_str found

  pub check : Claims → Text → Act W Outcome
  unfolding check_cached
  check claims token_str = check_cached p.redis claims token_str

  by_claims : Text → Result Claims → Act W Outcome
  by_claims token_str (err e) = pure (unauthorized (lit "invalid or expired token"))
  by_claims token_str (ok claims) = check claims token_str

  by_parts : Option (Text × Text) → Act W Outcome
  unfolding by_claims
  by_parts none = pure (unauthorized (lit "invalid authorization header"))
  by_parts (some (scheme, token_str)) =
      if not (is_bearer scheme)
      then pure (unauthorized (lit "invalid authorization header"))
      else (do claims ← attempt (parse_token p token_str); by_claims token_str claims)

  pub jwt_auth : Text → Act W Outcome
  unfolding by_parts
  jwt_auth header =
      if is_empty header
      then pure (unauthorized (lit "missing authorization header"))
      else by_parts (split_space header)

  abbrev pub soft_jwt_auth : Text → Act W Outcome
  unfolding by_parts
  soft_jwt_auth header = if is_empty header then pure passed else by_parts (split_space header)
