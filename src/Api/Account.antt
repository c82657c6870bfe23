-- ===== src/Api/Account.antt =====
-- internal/api/account/repo.go.
mod Tests
pub mod Rename
pub mod Service
use go_video.Prelude.{
  ℕ, List, [], true, Act, pure, raise, record_not_found, ◌>>=◌, ◌>>◌, ◌==◌, if◌then◌else◌,
}
use go_video.Prelude.Text.{Text, text_eq}
use go_video.Services.Platform.{Platform}
use go_video.Entities.{Account}

module _ {W : Type 0} (p : Platform W) where
  -- AccountRepo.FindByID
  abbrev pub find_account : ℕ → Act W Account
  find_account id = p.accounts.first (λ a. a.id == id)

  abbrev pub create_account : Account → Act W (Unit {0})
  create_account a = do p.accounts.create a; pure tt

  abbrev pub find_by_username : Text → Act W Account
  find_by_username username = p.accounts.first (λ a. text_eq a.username username)

  abbrev pub update_token_and_refresh_token : ℕ → Text → Text → Act W (Unit {0})
  update_token_and_refresh_token account_id token refresh_token = do
    p.accounts.update (λ a. a.id == account_id)
        (λ a. record a { token = token; refresh_token = refresh_token })
    pure tt

  abbrev pub update_token : ℕ → Text → Act W (Unit {0})
  update_token account_id new_token = do
    p.accounts.update (λ a. a.id == account_id) (λ a. record a { token = new_token })
    pure tt

  abbrev pub find_all : Act W (List Account)
  find_all = p.accounts.find (λ a. true)

  abbrev pub find_by_refresh_token : Text → Act W Account
  find_by_refresh_token refresh_token =
      p.accounts.first (λ a. text_eq a.refresh_token refresh_token)

  -- The body of the transaction in RenameWithToken.
  pub rename_body : ℕ → Text → Text → Act W (Unit {0})
  rename_body account_id new_username token = do
    changed ←
        p.accounts.update (λ a. a.id == account_id) (λ a. record a { username = new_username })
    if changed == 0 then raise record_not_found else do
      p.accounts.update (λ a. a.id == account_id) (λ a. record a { token = token })
      pure tt

  pub rename_with_token : ℕ → Text → Text → Act W (Unit {0})
  rename_with_token account_id new_username token =
      p.transactions.transaction (rename_body account_id new_username token)

  abbrev pub update_password : ℕ → Text → Act W (Unit {0})
  update_password account_id new_hash_password = do
    p.accounts.update (λ a. a.id == account_id) (λ a. record a { password = new_hash_password })
    pure tt

  abbrev pub delete_token_and_refresh_token : ℕ → Act W (Unit {0})
  delete_token_and_refresh_token account_id = do
    p.accounts.update (λ a. a.id == account_id) (λ a. record a { token = []; refresh_token = [] })
    pure tt

  abbrev pub update_avatar : ℕ → Text → Act W (Unit {0})
  update_avatar account_id avatar_url = do
    p.accounts.update (λ a. a.id == account_id) (λ a. record a { avatar_url = avatar_url })
    pure tt

  abbrev pub update_avatar_and_profile : ℕ → Text → Text → Act W (Unit {0})
  update_avatar_and_profile account_id avatar_url bio = do
    p.accounts.update (λ a. a.id == account_id)
        (λ a. record a { avatar_url = avatar_url; bio = bio })
    pure tt
