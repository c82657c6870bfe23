-- ===== src/Api/Account/Service/Logout.antt =====
-- What Logout leaves in the accounts table.
use go_video.Prelude.{
  ℕ, ◌≡◌, refl, sym, subst, ap, true, Option, none, some, List, [], ◌∷◌, All, ◌==◌, ==_iff, ◌∙◌,
}
use mathlib.Core.List.{Memᴰ}
use go_video.Prelude.Text.{Text, is_empty}
use go_video.Services.Sql.{selected-update_rows}
use go_video.Services.Redis.{Key}
use go_video.Services.Keeps.{
  Keeps-if, Keeps-first, Keeps-pure, Keeps-performs, Keeps-bind, Keeps, keeps_rules,
}
use go_video.Services.Reads.{IgnoresStrings, ensures_first, Keeps-del}
use go_video.Services.Ensures.{
  Ensures, ensures_bind, ensures_performs, ensures_pure, ensures_keeps, ensures_if,
}
use go_video.Services.Platform.{Platform}
use go_video.Entities.{Account, State}
use go_video.Entities.Schemas.{Cache}
use go_video.Api.Account.{delete_token_and_refresh_token}
use go_video.Api.Account.Service.{forget_login, logout}

-- The id is the primary key.
abbrev pub IdsUnique : State → Type 0
IdsUnique s = (a b : Account) → Memᴰ a s.accounts → Memᴰ b s.accounts → a.id ≡ b.id → a ≡ b

-- No row of the id has a token.
abbrev pub IsRevoked : ℕ → State → Type 0
IsRevoked id s = All (λ a. (a.id == id) ≡ true → is_empty a.token ≡ true) s.accounts

All-Mem :
    {Row : Type 0} (Q : Row → Type 0) (rs : List Row) → ((r : Row) → Memᴰ r rs → Q r) → All Q rs
All-Mem Q [] h = tt
All-Mem Q (r ∷ rs) h = (h r (Memᴰ.head refl), All-Mem Q rs (λ x m. h x (Memᴰ.tail m)))

module _ {W : Type 0} (p : Platform W) (id : ℕ) where
  Keeps-forget_login :
      {P : State → Type 0} (free : IgnoresStrings P) (c : Option (Cache p.view)) (refresh : Text)
      → Keeps p.view P (forget_login p c id refresh)
  unfolding forget_login
  Keeps-forget_login free none refresh = search keeps_rules
  Keeps-forget_login free (some cache) refresh = search (keeps_rules, Keeps-del cache free) depth 12

  abbrev FoundId : Account → State → Type 0
  FoundId a s = IdsUnique s × ((a.id == id) ≡ true) × Memᴰ a s.accounts

  already_out : (a : Account) (s : State) → is_empty a.token ≡ true → FoundId a s → IsRevoked id s
  already_out a s gone (unique, hit, there) = All-Mem _ s.accounts (λ b m h.
      ap (λ (x : Account). is_empty x.token)
        (unique b a m there ((==_iff b.id id).0 h ∙ sym ((==_iff a.id id).0 hit)))
      ∙ gone)

  delete_tokens-IsRevoked :
      (a : Account)
      → (a.id == id) ≡ true
      → Ensures p.view (λ _. Unit {0}) (delete_token_and_refresh_token p a.id) (λ _. IsRevoked id)
  delete_tokens-IsRevoked a hit =
      ensures_bind (λ _. IsRevoked id) _ _
        (ensures_performs _ _ (p.accounts.update_lem _ _) (λ w n s h (_, set). rw set (
          subst
            (λ k.
              All (λ b. (b.id == k) ≡ true → is_empty b.token ≡ true)
                (go_video.Services.Sql.update_rows (λ b. b.id == a.id)
                  (λ b. record b { token = []; refresh_token = [] }) (p.view w).accounts))
            ((==_iff a.id id).0 hit)
            (selected-update_rows (λ b. b.id == a.id) (λ b. is_empty b.token)
              (λ b. record b { token = []; refresh_token = [] }) (p.view w).accounts (λ b. refl)
              (λ b. refl)))))
        (λ _. ensures_pure tt (λ s h. h))

  -- A logout that succeeds leaves no token in the rows of its account.
  pub logout-IsRevoked : Ensures p.view IdsUnique (logout p id) (λ _. IsRevoked id)
  unfolding logout
  logout-IsRevoked = ensures_bind FoundId _ _ (ensures_first p.accounts (λ a. a.id == id)) (λ a.
      ensures_if _ _ _ (λ gone. ensures_pure tt (λ s h. already_out a s gone h))
        (λ _.
          ensures_bind (λ _. FoundId a) _ _
            (ensures_keeps _
              (Keeps-forget_login (record { strings_set = λ s x h. h }) p.redis a.refresh_token))
            (λ _. record { at = λ w h b done. (delete_tokens-IsRevoked a h.1).at w tt b done })))

module _ {W : Type 0} {P : State → Type 0} (p : Platform W) (id : ℕ) where
  Keeps-delete_tokens :
      (k : ℕ)
      → ((s : State) (x : List Account) → P s → P (record s { accounts = x }))
      → Keeps p.view P (delete_token_and_refresh_token p k)
  Keeps-delete_tokens k free =
      Keeps-bind _ _
        (Keeps-performs _ _ (p.accounts.update_lem _ _)
          (λ w n s h post. subst P (sym post.1) (free _ _ h)))
        (λ _. Keeps-pure tt)

  module _ (cache : Cache p.view) (has_redis : p.redis ≡ some cache)
      (free : (s : State) (x : List Account) → P s → P (record s { accounts = x }))
      (del : (k : Key) → Keeps p.view P (cache.del k)) where
    forget_of : (refresh : Text) → Keeps p.view P (forget_login p (some cache) id refresh)
    unfolding forget_login
    forget_of refresh = search (keeps_rules, del) depth 12

    -- A fact that the accounts do not touch, and that a DEL keeps, is kept.
    pub Keeps-logout_of : Keeps p.view P (logout p id)
    unfolding logout
    Keeps-logout_of = Keeps-bind _ _ (Keeps-first p.accounts _) (λ a.
        Keeps-if (is_empty a.token) _ _ (Keeps-pure tt) (
          Keeps-bind _ _
            (subst (λ c. Keeps p.view P (forget_login p c id a.refresh_token)) (sym has_redis)
              (forget_of a.refresh_token))
            (λ _. Keeps-delete_tokens a.id free)))
