-- ===== src/Api/Account/Service/Refresh.antt =====
-- Who is given a new token by RefreshToken.
use go_video.Prelude.{
  false, pure, ℕ, ◌≡◌, refl, subst, Bool, true, ◌&&◌, Option, none, some, Result, ok, err, any,
  arith, ◌==◌, ==_iff,
}
use mathlib.Core.List.{Memᴰ}
use go_video.Prelude.Text.{Text, text_eq, text_eq_self, is_empty}
use go_video.Services.Sql.{any-update_rows}
use go_video.Services.Reads.{ensures_first, Keeps-set}
use go_video.Services.Ensures.{
  Ensures, ensures_bind, ensures_performs, ensures_pure, ensures_any, ensures_keeps, ensures_if,
  ensures_raise, ensures_answered, ensures_weaken,
}
use go_video.Services.Platform.{Platform}
use go_video.Entities.{Account, State}
use go_video.Entities.Schemas.{Cache}
use go_video.Auth.Laws.{Keeps-generate_token}
use go_video.Api.Account.{update_token}
use go_video.Api.Account.Service.{
  parse_uint, cached_account, cached_id, looked_up, refresh_stored, refresh_unless, refresh_cached,
  refresh,
}

-- The account of the answer, with the refresh token that was shown and the token that is given out.
abbrev pub renewed : Text → Text × ℕ × Text → Account → Bool
renewed refresh_token (token, id, username) a =
    text_eq a.refresh_token refresh_token
    && text_eq a.token token
    && a.id == id
    && text_eq a.username username

abbrev pub IsRenewed : Text → Text × ℕ × Text → State → Type 0
IsRenewed refresh_token r s = any (renewed refresh_token r) s.accounts ≡ true

module _ {W : Type 0} (p : Platform W) (refresh_token : Text) where
  abbrev Holder : Account → State → Type 0
  Holder a s = (text_eq a.refresh_token refresh_token ≡ true) × Memᴰ a s.accounts

  update_token-IsRenewed :
      (a : Account) (token : Text)
      → Ensures p.view
          (Holder a)
          (update_token p a.id token)
          (λ _. IsRenewed refresh_token (token, a.id, a.username))
  update_token-IsRenewed a token =
      ensures_bind (λ _. IsRenewed refresh_token (token, a.id, a.username)) _ _
        (ensures_performs _ _ (p.accounts.update_lem _ _) (λ w n s (held, there) (_, set). rw set (
          any-update_rows (λ x. x.id == a.id) (renewed refresh_token (token, a.id, a.username))
            (λ x. record x { token = token }) there ((==_iff a.id a.id).1 refl)
            (ground (
              arith,
              held,
              text_eq_self token,
              text_eq_self a.username,
              (==_iff a.id a.id).1 refl,
            )))))
        (λ _. ensures_pure tt (λ s h. h))

  -- An answer that redis led to.
  abbrev Answer : Option (Text × ℕ × Text) → State → Type 0
  Answer o s = (r : Text × ℕ × Text) → o ≡ some r → IsRenewed refresh_token r s

  no_reply :
      {P : State → Type 0} → Ensures p.view P (pure {A = Option (Text × ℕ × Text)} none) Answer
  no_reply = ensures_pure none (λ s h r e. absurd (cc e))

  cached_account-Answer :
      (cache : Cache p.view) (id : ℕ) (found : Result Account)
      → Ensures p.view
          (λ s. (a : Account) → found ≡ ok a → Unit {0} × ((a.id == id) ≡ true) × Memᴰ a s.accounts)
          (cached_account p cache refresh_token found)
          Answer
  unfolding cached_account
  cached_account-Answer cache id (err e) = no_reply
  cached_account-Answer cache id (ok a) =
      ensures_if _ _ _
        (λ held.
          ensures_bind (λ _. Holder a) _ _
            (ensures_weaken _ (λ s h. (held, (h a refl).2)) (λ _ s h. h)
              (ensures_keeps _ (Keeps-generate_token p a.id a.username)))
            (λ token.
              ensures_bind (λ _. IsRenewed refresh_token (token, a.id, a.username)) _ _
                (update_token-IsRenewed a token)
                (λ _.
                  ensures_bind (λ _. IsRenewed refresh_token (token, a.id, a.username)) _ _
                    (ensures_keeps _
                      (Keeps-set cache (record { strings_set = λ s x h. h }) _ token _))
                    (λ _.
                      ensures_pure (some (token, a.id, a.username))
                        (λ s h r e. subst (λ x. IsRenewed refresh_token x s) (cc e) h)))))
        (λ _. no_reply)

  refresh_cached-Answer :
      (cache : Option (Cache p.view))
      → Ensures p.view (λ _. Unit {0}) (refresh_cached p cache refresh_token) Answer
  unfolding refresh_cached
  refresh_cached-Answer none = no_reply
  refresh_cached-Answer (some cache) =
      ensures_bind (λ _ _. Unit {0}) _ _ (ensures_any _) (λ bytes. by_bytes bytes)
    where
      by_id :
          (o : Option ℕ) → Ensures p.view (λ _. Unit {0}) (cached_id p cache refresh_token o) Answer
      by_id none = no_reply
      by_id (some id) =
          ensures_bind _ _ _ (ensures_answered _ (ensures_first p.accounts (λ a. a.id == id)))
            (λ found. cached_account-Answer cache id found)

      by_bytes :
          (r : Result Text)
          → Ensures p.view (λ _. Unit {0}) (looked_up p cache refresh_token r) Answer
      by_bytes (err e) = no_reply
      by_bytes (ok id_str) = by_id (parse_uint id_str)

  refresh_stored-IsRenewed :
      Ensures p.view (λ _. Unit {0}) (refresh_stored p refresh_token) (IsRenewed refresh_token)
  unfolding refresh_stored
  refresh_stored-IsRenewed =
      ensures_bind _ _ _ (ensures_first p.accounts (λ a. text_eq a.refresh_token refresh_token))
        (λ a.
          ensures_bind (λ _. Holder a) _ _
            (ensures_weaken _ (λ s h. (h.1, h.2)) (λ _ s h. h)
              (ensures_keeps _ (Keeps-generate_token p a.id a.username)))
            (λ token.
              ensures_bind (λ _. IsRenewed refresh_token (token, a.id, a.username)) _ _
                (update_token-IsRenewed a token)
                (λ _. ensures_pure (token, a.id, a.username) (λ s h. h))))

  by_reply :
      (o : Option (Text × ℕ × Text))
      → Ensures p.view (Answer o) (refresh_unless p refresh_token o) (IsRenewed refresh_token)
  unfolding refresh_unless
  by_reply (some r) = ensures_pure r (λ s h. h r refl)
  by_reply none = ensures_weaken _ (λ s h. tt) (λ _ s h. h) refresh_stored-IsRenewed

  refresh-Ensures :
      Ensures p.view
        (λ _. Unit {0})
        (refresh p refresh_token)
        (λ r s. (is_empty refresh_token ≡ false) × IsRenewed refresh_token r s)
  unfolding refresh
  refresh-Ensures =
      ensures_if _ _ _ (λ _. ensures_raise _)
        (λ some_token.
          ensures_bind Answer _ _ (refresh_cached-Answer p.redis)
            (λ o. ensures_weaken _ (λ s h. h) (λ r s h. (some_token, h)) (by_reply o)))

  -- When RefreshToken gives out a token, the refresh token that was shown is not empty, and an
  -- account holds it whose id and name are the answer's and whose stored token is the new one.
  pub refresh_reasons :
      (r : Text × ℕ × Text) (w : W)
      → (refresh p refresh_token w).0 ≡ ok r
      → (is_empty refresh_token ≡ false)
        × (any (renewed refresh_token r) (p.view (refresh p refresh_token w).1).accounts ≡ true)
  refresh_reasons r w done = refresh-Ensures.at w tt r done
