-- ===== src/Api/Account/Service/Sessions.antt =====
-- What Login, RefreshToken, ChangePassword and CreateAccount leave in the accounts table.
use go_video.Prelude.{
  ℕ, ◌≡◌, refl, ap, Bool, true, ◌&&◌, Option, none, some, ok, is_ok, any, arith, ◌==◌, ==_iff,
}
use mathlib.Core.List.{Memᴰ}
use go_video.Prelude.Text.{Text, text_eq, text_eq_self}
use go_video.Services.Sql.{any-update_rows}
use go_video.Services.Keeps.{Keeps, keeps_rules}
use go_video.Services.Reads.{IgnoresStrings, ensures_first, ensures_of_result, Keeps-set}
use go_video.Services.Ensures.{
  ensures_weaken, Ensures, ensures_bind, ensures_performs, ensures_pure, ensures_keeps,
}
use go_video.Services.Platform.{Platform}
use go_video.Entities.{Account, State}
use go_video.Entities.Schemas.{Cache}
use go_video.Auth.Laws.{Keeps-generate_token, Keeps-generate_refresh_token}
use go_video.Api.Account.{update_token_and_refresh_token}
use go_video.Api.Account.Service.{start_session, cache_login, login}

module _ {W : Type 0} (p : Platform W) where
  -- An account of the name, whose password is the one that was given, with the two tokens.
  abbrev pub signed_in : Text → Text → Text → Text → Account → Bool
  signed_in username password token refresh_token a =
      text_eq a.username username
      && is_ok (p.passwords.compare a.password password)
      && text_eq a.token token
      && text_eq a.refresh_token refresh_token

  abbrev pub IsSignedIn : Text → Text → Text → Text → State → Type 0
  IsSignedIn username password token refresh_token s =
      any (signed_in username password token refresh_token) s.accounts ≡ true

  IsSignedIn-IgnoresStrings : (u q t r : Text) → IgnoresStrings (IsSignedIn u q t r)
  IsSignedIn-IgnoresStrings u q t r = record { strings_set = λ s x h. h }

  Keeps-cache_login :
      {P : State → Type 0} (free : IgnoresStrings P) (c : Option (Cache p.view)) (id : ℕ)
      (token refresh_token : Text)
      → Keeps p.view P (cache_login p c id token refresh_token)
  unfolding cache_login
  Keeps-cache_login free none id token refresh_token = search keeps_rules
  Keeps-cache_login free (some cache) id token refresh_token =
      search (keeps_rules, Keeps-set cache free) depth 9

  -- The account that Login found, in the table, with the right password.
  abbrev Found : Text → Text → Account → State → Type 0
  Found username password a s =
      (text_eq a.username username ≡ true)
      × (p.passwords.compare a.password password ≡ ok tt)
      × Memᴰ a s.accounts

  tokens_stored :
      (username password token refresh_token : Text) (a : Account)
      → Ensures p.view
          (Found username password a)
          (update_token_and_refresh_token p a.id token refresh_token)
          (λ _. IsSignedIn username password token refresh_token)
  tokens_stored username password token refresh_token a =
      ensures_bind (λ _. IsSignedIn username password token refresh_token) _ _
        (ensures_performs _ _ (p.accounts.update_lem _ _) (λ w n s (name, right, there) (_, set).
          rw set (
            any-update_rows (λ x. x.id == a.id) (signed_in username password token refresh_token)
              (λ x. record x { token = token; refresh_token = refresh_token }) there
              ((==_iff a.id a.id).1 refl)
              (ground (arith, ap is_ok right, text_eq_self token, text_eq_self refresh_token)))))
        (λ _. ensures_pure tt (λ s h. h))

  start_session-IsSignedIn :
      (username password : Text) (a : Account)
      → Ensures p.view
          (Found username password a)
          (start_session p a)
          (λ (token, refresh_token). IsSignedIn username password token refresh_token)
  unfolding start_session
  start_session-IsSignedIn username password a =
      ensures_bind (λ _. Found username password a) _ _
        (ensures_keeps _ (Keeps-generate_token p a.id a.username))
        (λ token.
          ensures_bind (λ _. Found username password a) _ _
            (ensures_keeps _ (Keeps-generate_refresh_token p a.id))
            (λ refresh_token.
              ensures_bind (λ _. IsSignedIn username password token refresh_token) _ _
                (tokens_stored username password token refresh_token a)
                (λ _.
                  ensures_bind (λ _. IsSignedIn username password token refresh_token) _ _
                    (ensures_keeps _ (
                      Keeps-cache_login
                        (IsSignedIn-IgnoresStrings username password token refresh_token) p.redis
                        a.id token refresh_token))
                    (λ _. ensures_pure (token, refresh_token) (λ s h. h)))))

  login-IsSignedIn :
      (username password : Text)
      → Ensures p.view
          (λ _. Unit {0})
          (login p username password)
          (λ (token, refresh_token). IsSignedIn username password token refresh_token)
  unfolding login
  login-IsSignedIn username password =
      ensures_bind (λ a s. Unit {0} × (text_eq a.username username ≡ true) × Memᴰ a s.accounts) _ _
        (ensures_first p.accounts (λ a. text_eq a.username username))
        (λ a.
          ensures_bind (λ _. Found username password a) _ _
            (ensures_weaken _ (λ s h. h) (λ _ s (h, right). (h.1, right, h.2))
              (ensures_of_result (p.passwords.compare a.password password)))
            (λ _. start_session-IsSignedIn username password a))

  -- When Login succeeds, an account of the name, whose stored password the given one matches, has
  -- the token and the refresh token of the answer.
  pub login_recorded :
      (username password token refresh_token : Text) (w : W)
      → (login p username password w).0 ≡ ok (token, refresh_token)
      → any
          (signed_in username password token refresh_token)
          (p.view (login p username password w).1).accounts
        ≡ true
  login_recorded username password token refresh_token w done =
      (login-IsSignedIn username password).at w tt (token, refresh_token) done
