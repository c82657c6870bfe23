-- ===== src/Api/Account/Service.antt =====
-- internal/api/account/service.go. `cache` is `p.redis`; a time to live is in milliseconds.
pub mod Sessions
pub mod Logout
pub mod Password
pub mod Unanswered
pub mod Refresh
use go_video.Prelude.{
  ◌*◌, ℕ, Option, none, some, List, Result, ok, err, Error, message, is_dup_key, Bool, ◌&&◌, Act,
  pure, raise, attempt, of_result, ◌>>=◌, ◌>>◌, if◌then◌else◌,
}
use go_video.Prelude.Text.{Text, text_eq, is_empty, trim_space}
use go_video.Prelude.Decimal.{format_uint, parse_uint}
use go_video.Services.Redis.{account_token, account_refresh, refresh_lookup}
use go_video.Services.Platform.{Platform}
use go_video.Entities.{Account}
use go_video.Entities.Schemas.{Cache}
use go_video.Auth.{generate_token, generate_refresh_token}
use go_video.Api.Account.{
  find_account, create_account, find_by_username, update_token_and_refresh_token, update_token,
  find_by_refresh_token, rename_with_token, update_password, delete_token_and_refresh_token,
  update_avatar_and_profile,
}

abbrev pub day : ℕ
day = 86400000

module _ {W : Type 0} (p : Platform W) where
  -- AccountService.CreateAccount
  unfoldable pub register : Account → Act W (Unit {0})
  register account = do
    hash ← p.passwords.generate account.password
    create_account p (record account { password = hash })

  -- The three entries that Login puts into redis; every error is dropped.
  pub cache_login : Option (Cache p.view) → ℕ → Text → Text → Act W (Unit {0})
  cache_login none id token refresh_token = pure tt
  cache_login (some cache) id token refresh_token = do
    attempt (cache.set (account_token id) token day)
    attempt (cache.set (account_refresh id) refresh_token (7 * day))
    attempt (cache.set (refresh_lookup refresh_token) (format_uint id) (7 * day))
    pure tt

  -- The part of Login after the password was found right.
  pub start_session : Account → Act W (Text × Text)
  unfolding cache_login
  start_session account = do
    token ← generate_token p account.id account.username
    refresh_token ← generate_refresh_token p account.id
    update_token_and_refresh_token p account.id token refresh_token
    cache_login p.redis account.id token refresh_token
    pure (token, refresh_token)

  unfoldable pub login : Text → Text → Act W (Text × Text)
  unfolding start_session
  login username password = do
    account ← find_by_username p username
    of_result (p.passwords.compare account.password password)
    start_session account

  -- RefreshToken when redis knows the account.
  cached_account : Cache p.view → Text → Result Account → Act W (Option (Text × ℕ × Text))
  cached_account cache refresh_token (err e) = pure none
  cached_account cache refresh_token (ok account) =
      if text_eq account.refresh_token refresh_token
      then (do
        new_token ← generate_token p account.id account.username
        update_token p account.id new_token
        cache.set (account_token account.id) new_token day
        pure (some (new_token, account.id, account.username)))
      else pure none

  cached_id : Cache p.view → Text → Option ℕ → Act W (Option (Text × ℕ × Text))
  unfolding cached_account
  cached_id cache refresh_token none = pure none
  cached_id cache refresh_token (some id) = do
    found ← attempt (find_account p id)
    cached_account cache refresh_token found

  looked_up : Cache p.view → Text → Result Text → Act W (Option (Text × ℕ × Text))
  unfolding cached_id
  looked_up cache refresh_token (err e) = pure none
  looked_up cache refresh_token (ok id_str) = cached_id cache refresh_token (parse_uint id_str)

  -- An absent answer: the table has to be asked.
  pub refresh_cached : Option (Cache p.view) → Text → Act W (Option (Text × ℕ × Text))
  unfolding looked_up
  refresh_cached none refresh_token = pure none
  refresh_cached (some cache) refresh_token = do
    bytes ← attempt (cache.get (refresh_lookup refresh_token))
    looked_up cache refresh_token bytes

  pub refresh_stored : Text → Act W (Text × ℕ × Text)
  refresh_stored refresh_token = do
    account ← find_by_refresh_token p refresh_token
    new_token ← generate_token p account.id account.username
    update_token p account.id new_token
    pure (new_token, account.id, account.username)

  pub refresh_unless : Text → Option (Text × ℕ × Text) → Act W (Text × ℕ × Text)
  unfolding refresh_stored
  refresh_unless refresh_token (some r) = pure r
  refresh_unless refresh_token none = refresh_stored refresh_token

  -- AccountService.RefreshToken
  unfoldable pub refresh : Text → Act W (Text × ℕ × Text)
  unfolding refresh_cached refresh_unless
  refresh refresh_token =
      if is_empty refresh_token
      then raise (message "refresh token is empty")
      else do cached ← refresh_cached p.redis refresh_token; refresh_unless refresh_token cached

  cache_token : Option (Cache p.view) → ℕ → Text → Act W (Unit {0})
  cache_token none id token = pure tt
  cache_token (some cache) id token = do attempt (cache.set (account_token id) token day); pure tt

  renamed : Result (Unit {0}) → Act W (Unit {0})
  renamed (ok _) = pure tt
  renamed (err e) = if is_dup_key e then raise (message "username already exists") else raise e

  unfoldable pub rename : ℕ → Text → Act W Text
  unfolding renamed cache_token
  rename account_id new_username =
      if is_empty new_username then raise (message "new_username is required") else do
        token ← generate_token p account_id new_username
        result ← attempt (rename_with_token p account_id new_username token)
        renamed result
        cache_token p.redis account_id token
        pure token

  password_checked : Result (Unit {0}) → Act W (Unit {0})
  password_checked (ok _) = pure tt
  password_checked (err e) = raise (message "incorrect password")

  unfoldable pub change_password : Text → Text → Text → Act W (Unit {0})
  unfolding password_checked
  change_password username old_password new_password = do
    account ← find_by_username p username
    password_checked (p.passwords.compare account.password old_password)
    hash ← p.passwords.generate new_password
    update_password p account.id hash

  -- The entries that Logout takes out of redis; every error is dropped.
  pub forget_login : Option (Cache p.view) → ℕ → Text → Act W (Unit {0})
  forget_login none id refresh_token = pure tt
  forget_login (some cache) id refresh_token = do
    attempt (cache.del (account_token id))
    attempt (cache.del (account_refresh id))
    if is_empty refresh_token
        then pure tt
        else do attempt (cache.del (refresh_lookup refresh_token)); pure tt

  unfoldable pub logout : ℕ → Act W (Unit {0})
  unfolding forget_login
  logout account_id = do
    account ← find_account p account_id
    if is_empty account.token then pure tt else do
      forget_login p.redis account_id account.refresh_token
      delete_token_and_refresh_token p account.id

  abbrev pub update_profile : ℕ → Text → Text → Act W (Unit {0})
  update_profile account_id avatar_url bio =
      if is_empty avatar_url && is_empty bio
      then raise (message "nothing to update")
      else update_avatar_and_profile p account_id (trim_space avatar_url) (trim_space bio)
