-- ===== src/Api/Account/Service/Unanswered.antt =====
-- RefreshToken where redis does not lead to the account: what it leaves in redis.
use go_video.Prelude.{
  message, raise, inr, inl, attempt, ◌≢◌, List, ℕ, ◌≡◌, refl, sym, subst, Option, none, some,
  Result, ok, err,
}
use go_video.Prelude.Text.{Text}
use go_video.Services.Keeps.{Keeps, Keeps-bind, Keeps-pure, Keeps-first, Keeps-performs}
use go_video.Services.Redis.{refresh_lookup}
use go_video.Services.Ensures.{
  ensures_attempt, Ensures, ensures_bind, ensures_pure, ensures_keeps, ensures_if, ensures_raise,
  ensures_weaken,
}
use go_video.Services.Platform.{Platform}
use go_video.Entities.{Account, State}
use go_video.Entities.Schemas.{Cache}
use go_video.Auth.Laws.{Keeps-generate_token}
use go_video.Api.Account.{update_token}
use go_video.Api.Account.Service.{
  is_empty, looked_up, refresh_stored, refresh_unless, refresh_cached, refresh,
}

module _ {W : Type 0} {P : State → Type 0} (p : Platform W) (refresh_token : Text) where
  Keeps-update_token :
      (k : ℕ) (token : Text)
      → ((s : State) (x : List Account) → P s → P (record s { accounts = x }))
      → Keeps p.view P (update_token p k token)
  Keeps-update_token k token free =
      Keeps-bind _ _
        (Keeps-performs _ _ (p.accounts.update_lem _ _)
          (λ w n s h post. subst P (sym post.1) (free _ _ h)))
        (λ _. Keeps-pure tt)

  Keeps-refresh_stored :
      ((s : State) (x : List Account) → P s → P (record s { accounts = x }))
      → Keeps p.view P (refresh_stored p refresh_token)
  unfolding refresh_stored
  Keeps-refresh_stored free = Keeps-bind _ _ (Keeps-first p.accounts _) (λ a.
      Keeps-bind _ _ (Keeps-generate_token p a.id a.username)
        (λ token. Keeps-bind _ _ (Keeps-update_token a.id token free) (λ _. Keeps-pure _)))

  -- Where redis does not lead to the account, its entries stay as they are.
  module _ (cache : Cache p.view) (has_redis : p.redis ≡ some cache)
      (unknown : (s : State) → P s → s.strings (refresh_lookup refresh_token) ≡ none)
      (free : (s : State) (x : List Account) → P s → P (record s { accounts = x })) where
    no_bytes :
        Ensures p.view P
          (attempt (cache.get (refresh_lookup refresh_token)))
          (λ r s. ((v : Text) → r ≢ ok v) × P s)
    no_bytes = ensures_attempt _ (λ w h.
        let (same, cases) = cache.get_lem (refresh_lookup refresh_token) w in
        (
          λ v e. elim cases [
            | inl (u, _, there) ↦ cc (there, unknown (p.view w) h)
            | inr (inl (e', _)) ↦ cc (e, e')
            | inr (inr (n, e')) ↦ cc (e, e')
          ],
          subst P (sym same) h,
        ))

    no_entry :
        (r : Result Text)
        → Ensures p.view
            (λ s. ((v : Text) → r ≢ ok v) × P s)
            (looked_up p cache refresh_token r)
            (λ o s. (o ≡ none) × P s)
    unfolding looked_up
    no_entry (err e) = ensures_pure none (λ s h. (refl, h.1))
    no_entry (ok v) = record { at = λ w h a e. absurd (h.0 v refl) }

    from_table :
        (o : Option (Text × ℕ × Text))
        → Ensures p.view (λ s. (o ≡ none) × P s) (refresh_unless p refresh_token o) (λ _. P)
    unfolding refresh_unless
    from_table none =
        ensures_weaken _ (λ s h. h.1) (λ _ s h. h) (ensures_keeps _ (Keeps-refresh_stored free))
    from_table (some r) = record { at = λ w h a e. absurd (cc h.0) }

    unanswered :
        Ensures p.view P (refresh_cached p (some cache) refresh_token) (λ o s. (o ≡ none) × P s)
    unfolding refresh_cached
    unanswered = ensures_bind (λ r s. ((v : Text) → r ≢ ok v) × P s) _ _ no_bytes no_entry

    pub ensures_refresh_of : Ensures p.view P (refresh p refresh_token) (λ _. P)
    unfolding refresh
    ensures_refresh_of =
        ensures_if (is_empty refresh_token) (raise (message "refresh token is empty")) _
          (λ _. ensures_raise _)
          (λ _.
            ensures_bind (λ o s. (o ≡ none) × P s) _ _
              (subst
                (λ c. Ensures p.view P (refresh_cached p c refresh_token) (λ o s. (o ≡ none) × P s))
                (sym has_redis) unanswered)
              from_table)
