-- ===== src/Middleware/Jwt/Stale.antt =====
-- What the entries that redis keeps of a login do after a logout or a refresh.
use go_video.Prelude.{
  ℕ, ◌≡◌, ◌⊎◌, inl, inr, refl, sym, subst, Bool-cases, false, none, some, ok, err, Error, fault,
  ◌>>=◌, if◌then◌else◌,
}
use go_video.Prelude.Text.{Text, lit, text_eq, text_eq_self}
use go_video.Services.Credentials.{Claims}
use go_video.Services.Sql.{answered, refused}
use go_video.Services.Redis.{Key, account_token, refresh_lookup}
use go_video.Services.Platform.{Platform}
use go_video.Entities.Schemas.{Cache}
use go_video.Api.Account.Service.{logout, refresh}
use go_video.Api.Account.Service.Logout.{Keeps-logout_of}
use go_video.Api.Account.Service.Unanswered.{ensures_refresh_of}
use go_video.Middleware.Jwt.{unauthorized, pass, by_entry, check_cached, check}

module _ {W : Type 0} (p : Platform W) (cache : Cache p.view)
    (has_redis : p.redis ≡ some cache) where
  -- What the check makes of the entry, unless redis does not answer.
  entry_of :
      (claims : Claims) (token old : Text) (w : W)
      → (p.view w).strings (account_token claims.account_id) ≡ some old
      → ((check_cached p (some cache) claims token w).0
          ≡ ok (
              if text_eq old token
              then pass claims
              else unauthorized (lit "token has been revoked")))
        ⊎ ((n : ℕ) × ((cache.get (account_token claims.account_id) w).0 ≡ err (fault n)))
  unfolding check_cached by_entry ◌>>=◌
  entry_of claims token old w there = elim (cache.get_lem (account_token claims.account_id) w).1 [
    | inl (v, e, found) ↦
        let same : v ≡ old = cc (there, found) in
        elim (Bool-cases (text_eq old token)) [
          | inl equal ↦ inl (rw (e, same, equal) refl)
          | inr other ↦ inl (rw (e, same, other) refl)
        ]
    | inr (inl (_, missing)) ↦ absurd (cc (there, missing))
    | inr (inr (n, e)) ↦ inr (n, e)
  ]

  check_entry :
      (claims : Claims) (token old : Text) (w : W)
      → (p.view w).strings (account_token claims.account_id) ≡ some old
      → ((check p claims token w).0
          ≡ ok (
              if text_eq old token
              then pass claims
              else unauthorized (lit "token has been revoked")))
        ⊎ ((n : ℕ) × ((cache.get (account_token claims.account_id) w).0 ≡ err (fault n)))
  unfolding check
  check_entry claims token old w there =
      subst
        (λ c.
          ((check_cached p c claims token w).0
            ≡ ok (
                if text_eq old token
                then pass claims
                else unauthorized (lit "token has been revoked")))
          ⊎ ((n : ℕ) × ((cache.get (account_token claims.account_id) w).0 ≡ err (fault n))))
        (sym has_redis) (entry_of claims token old w there)

  -- A logout that succeeds while redis refuses to delete leaves the token of the account accepted,
  -- as long as redis answers.
  pub stale_token_accepted :
      (claims : Claims) (token : Text) (w : W)
      → ((k : Key) (v : W) → (x : Error) × ((cache.del k v).0 ≡ err x))
      → (p.view w).strings (account_token claims.account_id) ≡ some token
      → (logout p claims.account_id w).0 ≡ ok tt
      → ((check p claims token (logout p claims.account_id w).1).0 ≡ ok (pass claims))
        ⊎ ((n : ℕ) × ((cache.get
                (account_token claims.account_id)
                (logout p claims.account_id w).1).0
              ≡ err (fault n)))
  stale_token_accepted claims token w no_delete there done = rw (text_eq_self token) at (
      check_entry claims token token (logout p claims.account_id w).1 (
        (Keeps-logout_of {P = λ s. s.strings (account_token claims.account_id) ≡ some token} p
            claims.account_id cache has_redis (λ s x h. h)
            (λ k. record {
              at = λ v h. elim (cache.del_lem k v) [
                | answered a e post ↦ absurd (cc ((no_delete k v).1, e))
                | refused x e same ↦
                    subst (λ s. s.strings (account_token claims.account_id) ≡ some token) (sym same)
                      h
              ];
            })).at
          w there))

  -- A refresh that redis does not lead to the account of leaves the old token in redis: the check
  -- turns the new token down, as long as redis answers and the two tokens differ.
  pub refreshed_token_refused :
      (refresh_token token old : Text) (id : ℕ) (username : Text) (claims : Claims) (w : W)
      → (p.view w).strings (refresh_lookup refresh_token) ≡ none
      → (p.view w).strings (account_token claims.account_id) ≡ some old
      → (refresh p refresh_token w).0 ≡ ok (token, id, username)
      → claims.account_id ≡ id
      → text_eq old token ≡ false
      → ((check p claims token (refresh p refresh_token w).1).0
          ≡ ok (unauthorized (lit "token has been revoked")))
        ⊎ ((n : ℕ) × ((cache.get (account_token claims.account_id) (refresh p refresh_token w).1).0
              ≡ err (fault n)))
  refreshed_token_refused refresh_token token old id username claims w unknown there done same
        other =
      rw other at (
        check_entry claims token old (refresh p refresh_token w).1
          ((ensures_refresh_of
              {P = λ s.
                (s.strings (refresh_lookup refresh_token) ≡ none)
                × (s.strings (account_token claims.account_id) ≡ some old)}
              p refresh_token cache has_redis (λ s h. h.0) (λ s x h. h)).at
            w (unknown, there) (token, id, username) done).1)
