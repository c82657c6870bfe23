-- ===== src/Middleware/Jwt/Access.antt =====
-- Which requests the JWT middleware lets pass.
use go_video.Prelude.{
  record_not_found, ℕ, ◌≡◌, ◌≢◌, ◌⊎◌, inl, inr, refl, sym, subst, ap, ◌∙◌, Bool, Bool-cases, true,
  false, ◌&&◌, ◌||◌, not, Option, none, some, List, [], ◌∷◌, Result-cases, ok, err, Error, any, All,
  arith, ◌==◌, ==_iff, ◌>>=◌,
}
use mathlib.Core.List.{Memᴰ}
use go_video.Prelude.Text.{Text, lit, text_eq, text_eq_iff, is_empty}
use go_video.Services.Credentials.{Claims}
use go_video.Services.Sql.{Mem_of_any, any_of_Mem}
use go_video.Services.Redis.{account_token}
use go_video.Services.Platform.{Platform}
use go_video.Entities.{Account, State}
use go_video.Entities.Schemas.{Cache}
use go_video.Auth.{parse_token}
use go_video.Auth.Laws.{parse_token_same}
use go_video.Api.Account.Service.Logout.{IdsUnique, logout-IsRevoked}
use go_video.Api.Account.Service.{logout}
use go_video.Middleware.Jwt.{
  ◌∷◌, Outcome, passed_as, unauthorized, pass, split_space, is_bearer, cache_again, by_account,
  check_stored, by_entry, check_cached, check, by_claims, by_parts, jwt_auth,
}

-- An account of the id with the token, which is not empty.
abbrev pub holds_token : ℕ → Text → Account → Bool
holds_token id token a = a.id == id && not (is_empty a.token) && text_eq a.token token

revoked_unknown :
    (id : ℕ) (token : Text) (rows : List Account)
    → All (λ a. (a.id == id) ≡ true → is_empty a.token ≡ true) rows
    → any (holds_token id token) rows ≡ false
revoked_unknown id token [] h = refl
revoked_unknown id token (a ∷ rows) h = elim (Bool-cases (a.id == id)) [
  | inl e ↦ ground (arith, h.0 e, revoked_unknown id token rows h.1)
  | inr e ↦ ground (arith, revoked_unknown id token rows h.1)
]

module _ {W : Type 0} (p : Platform W) where
  -- Redis or the accounts table knows the token as the account's.
  abbrev pub IsKnown : ℕ → Text → State → Type 0
  IsKnown id token s =
      (s.strings (account_token id) ≡ some token) ⊎ (any (holds_token id token) s.accounts ≡ true)

  cache_again_done :
      (c : Option (Cache p.view)) (id : ℕ) (token : Text) (w : W)
      → (cache_again p c id token w).0 ≡ ok tt
  unfolding cache_again ◌>>=◌
  cache_again_done none id token w = refl
  cache_again_done (some cache) id token w = refl

  module _ (claims : Claims) (token : Text) (o : Outcome)
      (let_in : (t : Text) → o ≢ unauthorized t) where
    by_account_passes :
        (a : Account) (w : W)
        → (by_account p claims token (ok a) w).0 ≡ ok o
        → (is_empty a.token ≡ false) × (text_eq a.token token ≡ true) × (o ≡ pass claims)
    unfolding by_account ◌>>=◌
    by_account_passes a w h = elim (Bool-cases (is_empty a.token || not (text_eq a.token token))) [
      | inl e ↦ absurd (let_in (lit "token has been revoked") (cc (rw e at h)))
      | inr e ↦ (
        ground arith,
        ground arith,
        cc (rw (e, cache_again_done p.redis claims.account_id token w) at h),
      )
    ]

    check_stored_passes :
        (w : W)
        → (check_stored p claims token w).0 ≡ ok o
        → (a : Account) × ((a.id == claims.account_id) ≡ true)
          × Memᴰ a (p.view w).accounts
          × (is_empty a.token ≡ false)
          × (text_eq a.token token ≡ true)
          × (o ≡ pass claims)
    unfolding check_stored ◌>>=◌
    check_stored_passes w h = elim (p.accounts.first_lem (λ a. a.id == claims.account_id) w) [
      | inl (a, e, hit, there, same) ↦
          let (full, right, out) = by_account_passes a _ (rw e at h) in
          (a, hit, there, full, right, out)
      | inr (inl (e, _, _)) ↦ absurd (let_in (lit "token has been revoked") (cc (rw e at h)))
      | inr (inr (x, e, _, _)) ↦ absurd (let_in (lit "token has been revoked") (cc (rw e at h)))
    ]

    by_table :
        (v w : W)
        → p.view v ≡ p.view w
        → (check_stored p claims token v).0 ≡ ok o
        → (o ≡ pass claims) × IsKnown claims.account_id token (p.view w)
    by_table v w same k =
        let (a, hit, there, full, right, out) = check_stored_passes v k in
        (
          out,
          inr (
              subst (λ s. any (holds_token claims.account_id token) s.accounts ≡ true) same
                (any_of_Mem (holds_token claims.account_id token) there (ground arith))),
        )

    check_cached_passes :
        (c : Option (Cache p.view)) (w : W)
        → (check_cached p c claims token w).0 ≡ ok o
        → (o ≡ pass claims) × IsKnown claims.account_id token (p.view w)
    unfolding check_cached by_entry ◌>>=◌
    check_cached_passes none w h = by_table w w refl h
    check_cached_passes (some cache) w h =
        let (same, cases) = cache.get_lem (account_token claims.account_id) w in
        elim cases [
          | inl (v, e, there) ↦ elim (Bool-cases (text_eq v token)) [
            | inl right ↦
                (cc (rw (e, right) at h), inl (there ∙ ap some ((text_eq_iff v token).0 right)))
            | inr other ↦ absurd (let_in (lit "token has been revoked") (cc (rw (e, other) at h)))
          ]
          | inr (inl (e, _)) ↦ by_table _ w same (rw e at h)
          | inr (inr (n, e)) ↦ by_table _ w same (rw e at h)
        ]

  by_parts_passes :
      (parts : Option (Text × Text)) (o : Outcome) (w : W)
      → ((t : Text) → o ≢ unauthorized t)
      → (by_parts p parts w).0 ≡ ok o
      → (scheme : Text) × (token : Text) × (claims : Claims) × (parts ≡ some (scheme, token))
        × (is_bearer scheme ≡ true)
        × ((parse_token p token w).0 ≡ ok claims)
        × (o ≡ pass claims)
        × IsKnown claims.account_id token (p.view w)
  unfolding by_parts by_claims check ◌>>=◌
  by_parts_passes none o w let_in h = absurd (let_in (lit "invalid authorization header") (cc h))
  by_parts_passes (some (scheme, token)) o w let_in h = elim (Bool-cases (is_bearer scheme)) [
    | inl right ↦ elim (Result-cases (parse_token p token w).0) [
      | inl (claims, e) ↦
          let (out, known) =
            check_cached_passes claims token o let_in p.redis w
              (rw (← parse_token_same p token w) (rw (right, e) at h)) in
          (scheme, token, claims, refl, right, e, out, known)
      | inr (x, e) ↦ absurd (let_in (lit "invalid or expired token") (cc (rw (right, e) at h)))
    ]
    | inr other ↦ absurd (let_in (lit "invalid authorization header") (cc (rw other at h)))
  ]

  -- A request that passes as an account has a bearer header whose token was parsed to claims for
  -- that account, and redis or the accounts table knows that very token as the account's.
  pub admitted_reasons :
      (header : Text) (id : ℕ) (username : Text) (w : W)
      → (jwt_auth p header w).0 ≡ ok (passed_as id username)
      → (scheme : Text) × (token : Text) × (claims : Claims) × (split_space header
          ≡ some (scheme, token))
        × (is_bearer scheme ≡ true)
        × ((parse_token p token w).0 ≡ ok claims)
        × (passed_as id username ≡ pass claims)
        × IsKnown claims.account_id token (p.view w)
  unfolding jwt_auth ◌>>=◌
  admitted_reasons [] id username w h = absurd (cc h)
  admitted_reasons (c ∷ header) id username w h =
      by_parts_passes (split_space (c ∷ header)) (passed_as id username) w (λ t e. cc e) h

  -- After a logout that succeeds, no token of the account passes the check, unless redis still has
  -- one for the account; the ids of the accounts are unique.
  pub logout_revokes :
      (id : ℕ) (w : W)
      → IdsUnique (p.view w)
      → (logout p id w).0 ≡ ok tt
      → (p.view (logout p id w).1).strings (account_token id) ≡ none
      → (claims : Claims) (token : Text) → claims.account_id ≡ id
      → (check p claims token (logout p id w).1).0 ≢ ok (pass claims)
  unfolding check
  logout_revokes id w unique done empty claims token same passes =
      let w' = (logout p id w).1 in
      elim (check_cached_passes claims token (pass claims) (λ t e. cc e) p.redis w' passes).1 [
        | inl cached ↦ cc (rw same at cached, empty)
        | inr stored ↦ cc (
          rw same at stored,
          revoked_unknown id token (p.view w').accounts
              ((logout-IsRevoked p id).at w unique tt done),
        )
      ]

  by_row :
      (claims : Claims) (token : Text) (w : W)
      → IdsUnique (p.view w)
      → any (holds_token claims.account_id token) (p.view w).accounts ≡ true
      → ((check_cached p none claims token w).0 ≡ ok (pass claims))
        ⊎ ((x : Error) × ((p.accounts.first (λ a. a.id == claims.account_id) w).0 ≡ err x)
            × (x ≢ record_not_found))
  unfolding check_cached check_stored by_account ◌>>=◌
  by_row claims token w unique held =
      let (b, there', holds) = Mem_of_any (holds_token claims.account_id token) _ held in
      elim (p.accounts.first_lem (λ a. a.id == claims.account_id) w) [
        | inl (a, e, hit, there, same) ↦
            let equal : a ≡ b =
              unique a b there there'
                (ground (arith, ==_iff a.id claims.account_id, ==_iff b.id claims.account_id)) in
            let test : (is_empty a.token || not (text_eq a.token token)) ≡ false =
              subst (λ (x : Account). (is_empty x.token || not (text_eq x.token token)) ≡ false)
                (sym equal) (ground arith) in
            inl (
              rw
                (
                  e,
                  test,
                  cache_again_done p.redis claims.account_id token
                      (p.accounts.first (λ a. a.id == claims.account_id) w).1,
                )
                refl)
        | inr (inl (_, empty, _)) ↦ absurd (
            cc (
              empty,
              any_of_Mem (λ (a : Account). a.id == claims.account_id) there' (ground arith),
            ))
        | inr (inr (x, e, other, _)) ↦ inr (x, e, other)
      ]

  -- Where redis is not used, a token that the accounts table has for the account passes the check,
  -- unless the table cannot be read; the ids of the accounts are unique.
  pub stored_token_passes :
      (claims : Claims) (token : Text) (w : W)
      → p.redis ≡ none
      → IdsUnique (p.view w)
      → any (holds_token claims.account_id token) (p.view w).accounts ≡ true
      → ((check p claims token w).0 ≡ ok (pass claims))
        ⊎ ((x : Error) × ((p.accounts.first (λ a. a.id == claims.account_id) w).0 ≡ err x)
            × (x ≢ record_not_found))
  unfolding check
  stored_token_passes claims token w no_redis unique held =
      subst
        (λ c.
          ((check_cached p c claims token w).0 ≡ ok (pass claims))
          ⊎ ((x : Error) × ((p.accounts.first (λ a. a.id == claims.account_id) w).0 ≡ err x)
              × (x ≢ record_not_found)))
        (sym no_redis) (by_row claims token w unique held)
