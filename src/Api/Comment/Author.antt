-- ===== src/Api/Comment/Author.antt =====
-- Who may delete a comment.
use go_video.Prelude.{
  duplicate_key, validation, redis_nil, fault, ℕ, ◌≡◌, refl, inl, inr, ◌∙◌, Bool, Bool-cases, true,
  false, ◌&&◌, some, List, err, Error, is_ok, message, record_not_found, unauthorized, arith, any,
  ◌==◌, ◌>>=◌,
}
use mathlib.Core.List.{Memᴰ}
use go_video.Services.Sql.{any_of_Mem}
use go_video.Services.Platform.{Platform}
use go_video.Entities.{Comment}
use go_video.Api.Comment.{CommentService, optional, find_comment, delete_found, delete}

-- A comment of that id that the account wrote.
abbrev pub written_by : ℕ → ℕ → Comment → Bool
written_by comment_id account_id c = c.id == comment_id && c.author_id == account_id

module _ {W : Type 0} (p : Platform W) where
  refuses_other :
      (s : CommentService) (comment_id account_id : ℕ) (c : Comment) (w : W)
      → (c.author_id == account_id) ≡ false
      → (is_ok (delete_found p s comment_id account_id (some c) w).0 ≡ false)
        × (p.view (delete_found p s comment_id account_id (some c) w).1 ≡ p.view w)
  unfolding delete_found ◌>>=◌
  refuses_other s comment_id account_id c w h = rw h (refl, refl)

  -- No row, or no answer.
  refuses_error :
      (s : CommentService) (comment_id account_id : ℕ) (x : Error) (w : W)
      → (is_ok ((optional p (err x) >>= delete_found p s comment_id account_id) w).0 ≡ false)
        × (p.view ((optional p (err x) >>= delete_found p s comment_id account_id) w).1 ≡ p.view w)
  unfolding optional delete_found ◌>>=◌
  refuses_error s comment_id account_id (message t) w = (refl, refl)
  refuses_error s comment_id account_id duplicate_key w = (refl, refl)
  refuses_error s comment_id account_id record_not_found w = (refl, refl)
  refuses_error s comment_id account_id unauthorized w = (refl, refl)
  refuses_error s comment_id account_id validation w = (refl, refl)
  refuses_error s comment_id account_id redis_nil w = (refl, refl)
  refuses_error s comment_id account_id (fault n) w = (refl, refl)

  other_author :
      (comment_id account_id : ℕ) (c : Comment) (rows : List Comment)
      → Memᴰ c rows
      → (c.id == comment_id) ≡ true
      → any (written_by comment_id account_id) rows ≡ false
      → (c.author_id == account_id) ≡ false
  other_author comment_id account_id c rows there hit foreign =
      elim (Bool-cases (c.author_id == account_id)) [
        | inl own ↦ absurd (ground (arith, any_of_Mem (written_by comment_id account_id) there))
        | inr e ↦ e
      ]

  -- Deleting a comment that is missing or that another account wrote fails and changes nothing.
  pub delete_refused :
      (s : CommentService) (comment_id account_id : ℕ) (w : W)
      → any (written_by comment_id account_id) (p.view w).comments ≡ false
      → (is_ok (delete p s comment_id account_id w).0 ≡ false)
        × (p.view (delete p s comment_id account_id w).1 ≡ p.view w)
  unfolding delete find_comment ◌>>=◌
  delete_refused s comment_id account_id w foreign =
      let w1 = (p.comments.first (λ c. c.id == comment_id) w).1 in
      elim (p.comments.first_lem (λ c. c.id == comment_id) w) [
        | inl (c, e, hit, there, same) ↦
            let (refused, kept) =
              refuses_other s comment_id account_id c w1
                (other_author comment_id account_id c _ there hit foreign) in
            rw e (refused, kept ∙ same)
        | inr (inl (e, _, same)) ↦
            let (refused, kept) = refuses_error s comment_id account_id record_not_found w1 in
            rw e (refused, kept ∙ same)
        | inr (inr (x, e, new, same)) ↦
            let (refused, kept) = refuses_error s comment_id account_id x w1 in
            rw e (refused, kept ∙ same)
      ]
