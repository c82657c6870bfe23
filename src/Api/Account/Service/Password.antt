-- ===== src/Api/Account/Service/Password.antt =====
-- Which passwords the accounts table takes.
use go_video.Prelude.{
  ◌≡◌, refl, sym, subst, ap, inl, inr, Bool, true, ◌&&◌, List, [], ◌∷◌, Result, ok, err, is_ok, any,
  any-append, arith, ◌==◌, ==_iff,
}
use mathlib.Core.List.{Memᴰ}
use go_video.Prelude.Text.{Text, text_eq, text_eq_self}
use go_video.Services.Sql.{any-update_rows, any_of_Mem}
use go_video.Services.Reads.{ensures_first}
use go_video.Services.Ensures.{
  Ensures, ensures_bind, ensures_performs, ensures_pure, ensures_weaken,
}
use go_video.Services.Platform.{Platform}
use go_video.Entities.{Account, State}
use go_video.Api.Account.{create_account, update_password}
use go_video.Api.Account.Service.{register, change_password, password_checked}

module _ {W : Type 0} (p : Platform W) where
  -- An account of the name whose password is this one.
  abbrev pub has_password : Text → Text → Account → Bool
  has_password username password a =
      text_eq a.username username && is_ok (p.passwords.compare a.password password)

  generated :
      (P : State → Type 0) (password : Text)
      → Ensures p.view P
          (p.passwords.generate password)
          (λ hash s. (p.passwords.compare hash password ≡ ok tt) × P s)
  generated P password =
      ensures_performs _ _ (p.passwords.generate_lem password)
        (λ w hash s h (right, same). (right, subst P (sym same) h))

  created :
      (account : Account) (hash : Text)
      → Ensures p.view
          (λ s. (p.passwords.compare hash account.password ≡ ok tt) × Unit {0})
          (create_account p (record account { password = hash }))
          (λ _ s. any (has_password account.username account.password) s.accounts ≡ true)
  created account hash =
      ensures_bind (λ _ s. any (has_password account.username account.password) s.accounts ≡ true) _
        _
        (record {
          at = λ w h k done. elim (p.accounts.create_lem (record account { password = hash }) w) [
            | inl (i, e, _, _, _, same) ↦ rw same (
                ground (
                  arith,
                  any-append (has_password account.username account.password) (p.view w).accounts
                      (record account { id = i; password = hash } ∷ []),
                  text_eq_self account.username,
                  ap is_ok h.0,
                ))
            | inr (inl (e, _, _)) ↦ absurd (cc (e, done))
            | inr (inr (x, e, _, _)) ↦ absurd (cc (e, done))
          ];
        })
        (λ _. ensures_pure tt (λ s h. h))

  register-Ensures :
      (account : Account)
      → Ensures p.view
          (λ _. Unit {0})
          (register p account)
          (λ _ s. any (has_password account.username account.password) s.accounts ≡ true)
  unfolding register
  register-Ensures account =
      ensures_bind _ _ _ (generated (λ _. Unit {0}) account.password) (created account)

  -- When CreateAccount succeeds, an account has the name, and the password that was given matches
  -- what is stored for it.
  pub register_matches :
      (account : Account) (w : W)
      → (register p account w).0 ≡ ok tt
      → any
          (has_password account.username account.password)
          (p.view (register p account w).1).accounts
        ≡ true
  register_matches account w done = (register-Ensures account).at w tt tt done

  module _ (username old_password new_password : Text) (rows : List Account) where
    abbrev Before : Account → State → Type 0
    Before a s = (s.accounts ≡ rows) × (text_eq a.username username ≡ true) × Memᴰ a s.accounts

    abbrev Checked : Account → State → Type 0
    Checked a s =
        (any (has_password username old_password) rows ≡ true)
        × (text_eq a.username username ≡ true)
        × Memᴰ a s.accounts

    checked :
        (a : Account) (r : Result (Unit {0}))
        → p.passwords.compare a.password old_password ≡ r
        → Ensures p.view (Before a) (password_checked p r) (λ _. Checked a)
    unfolding password_checked
    checked a (ok _) e = ensures_pure tt (λ s (same, name, there). (
      subst (λ l. any (has_password username old_password) l ≡ true) same
          (any_of_Mem (has_password username old_password) there (ground (arith, ap is_ok e))),
      name,
      there,
    ))
    checked a (err x) e = go_video.Services.Ensures.ensures_raise _

    stored :
        (a : Account) (hash : Text)
        → Ensures p.view
            (λ s. (p.passwords.compare hash new_password ≡ ok tt) × Checked a s)
            (update_password p a.id hash)
            (λ _ s.
              (any (has_password username old_password) rows ≡ true)
              × (any (has_password username new_password) s.accounts ≡ true))
    stored a hash =
        ensures_bind
          (λ _ s.
            (any (has_password username old_password) rows ≡ true)
            × (any (has_password username new_password) s.accounts ≡ true))
          _ _
          (ensures_performs _ _ (p.accounts.update_lem _ _)
            (λ w n s (right, (old, name, there)) (_, set). (
              old,
              rw set (
                  any-update_rows (λ x. x.id == a.id) (has_password username new_password)
                    (λ x. record x { password = hash }) there ((==_iff a.id a.id).1 refl)
                    (ground (arith, ap is_ok right))),
            )))
          (λ _. ensures_pure tt (λ s h. h))

    change_password-Ensures :
        Ensures p.view
          (λ s. s.accounts ≡ rows)
          (change_password p username old_password new_password)
          (λ _ s.
            (any (has_password username old_password) rows ≡ true)
            × (any (has_password username new_password) s.accounts ≡ true))
    unfolding change_password
    change_password-Ensures =
        ensures_bind Before _ _ (ensures_first p.accounts (λ a. text_eq a.username username)) (λ a.
          ensures_bind (λ _. Checked a) _ _ (checked a _ refl)
            (λ _. ensures_bind _ _ _ (generated (Checked a) new_password) (λ hash. stored a hash)))

  -- When ChangePassword succeeds, the old password matched an account of the name before, and the
  -- new one matches an account of the name after.
  pub change_password_checked :
      (username old_password new_password : Text) (w : W)
      → (change_password p username old_password new_password w).0 ≡ ok tt
      → (any (has_password username old_password) (p.view w).accounts ≡ true)
        × (any
              (has_password username new_password)
              (p.view (change_password p username old_password new_password w).1).accounts
            ≡ true)
  change_password_checked username old_password new_password w done =
      (change_password-Ensures username old_password new_password (p.view w).accounts).at w refl tt
        done
