-- ===== src/Api/Account/Rename.antt =====
-- Renaming an account to the name that it has.
use go_video.Prelude.{
  sym, ℕ, ◌≡◌, ◌≢◌, inl, inr, ap, Bool, Bool-cases, true, List, [], ◌∷◌, ok, All, ◌==◌, ◌>>=◌,
}
use go_video.Prelude.Text.{Text}
use go_video.Services.Sql.{performs_cases, Changed}
use go_video.Services.Platform.{Platform}
use go_video.Entities.{Account}
use go_video.Api.Account.{rename_body, rename_with_token}

-- An UPDATE that leaves each row that it selects as it was changes no rows.
unchanged :
    (q : Account → Bool) (f : Account → Account) (rs : List Account) (n : ℕ)
    → All (λ a. q a ≡ true → f a ≡ a) rs
    → Changed q f rs n
    → n ≡ 0
unchanged q f [] n h c = c
unchanged q f (a ∷ rs) n h c = elim (Bool-cases (q a)) [
  | inl e ↦ elim (rw e at c) [
    | inl (same, rest) ↦ unchanged q f rs n h.1 rest
    | inr (other, rest) ↦ absurd (other (h.0 e))
  ]
  | inr e ↦ unchanged q f rs n h.1 (rw e at c)
]

same_rows :
    (id : ℕ) (name : Text) (rs : List Account)
    → All (λ a. (a.id == id) ≡ true → a.username ≡ name) rs
    → All (λ a. (a.id == id) ≡ true → record a { username = name } ≡ a) rs
same_rows id name [] h = tt
same_rows id name (a ∷ rs) h =
    (λ e. ap (λ u. record a { username = u }) (sym (h.0 e)), same_rows id name rs h.1)

module _ {W : Type 0} (p : Platform W) where
  body_fails :
      (id : ℕ) (name token : Text) (w : W)
      → All (λ a. (a.id == id) ≡ true → a.username ≡ name) (p.view w).accounts
      → (rename_body p id name token w).0 ≢ ok tt
  unfolding rename_body ◌>>=◌
  body_fails id name token w same done =
      elim (performs_cases
        (p.accounts.update_lem (λ a. a.id == id) (λ a. record a { username = name }) w)) [
          | inl (n, e, post) ↦
              let none_changed =
                unchanged (λ a. a.id == id) (λ a. record a { username = name }) (p.view w).accounts
                  n (same_rows id name (p.view w).accounts same) post.0 in
              cc (rw (e, none_changed) at done)
          | inr (x, e, _) ↦ cc (rw e at done)
        ]

  -- Renaming an account to the name that it has never succeeds, although the account is there and
  -- its token should change.
  pub rename_same_name :
      (id : ℕ) (name token : Text) (w : W)
      → All (λ a. (a.id == id) ≡ true → a.username ≡ name) (p.view w).accounts
      → (rename_with_token p id name token w).0 ≢ ok tt
  unfolding rename_with_token
  rename_same_name id name token w same done =
      let (b, before, cases) = p.transactions.transaction_lem (rename_body p id name token) w in
      elim cases [
        | inl (_, e, _) ↦ body_fails id name token b (rw before same) e
        | inr (inl (x, e, _, _)) ↦ cc (e, done)
        | inr (inr (n, e, _)) ↦ cc (e, done)
      ]
