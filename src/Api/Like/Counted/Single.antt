-- ===== src/Api/Like/Counted/Single.antt =====
-- LikeIgnoreDuplicate and DeleteByVideoAndAccount, which the worker calls outside any transaction,
-- against the counters.
use go_video.Prelude.{
  arith, ◌∙◌, zero, suc, ℕ, ◌≡◌, Bool, true, false, ◌||◌, ok, err, Result, is_dup_key, ltb, ◌==◌,
}
use go_video.Services.Ensures.{
  Ensures, ensures_bind, ensures_pure, ensures_raise, ensures_if, ensures_attempt,
}
use go_video.Services.Platform.{Platform}
use go_video.Services.Sql.{delete_rows_none}
use go_video.Entities.{State, Like}
use go_video.Api.Like.{is_pair, like_ignore_duplicate, delete_by_video_and_account, created}
use go_video.Api.Like.Counted.{suc, Uncounted, AfterCreate, Removed, create_like, delete_like}
use go_video.Api.Like.Counted.Rows.{LikesCounted}

abbrev pub AfterInsert : ℕ → Bool → State → Type 0
AfterInsert video true = Uncounted video
AfterInsert video false = LikesCounted

-- The rows that a DELETE of a user's like took out, if it took out any.
abbrev pub AfterRemoval : ℕ → ℕ → Bool → State → Type 0
AfterRemoval video account true s = (n : ℕ) × Removed video account (suc n) s
AfterRemoval video account false s = LikesCounted s

module _ {W : Type 0} (p : Platform W) where
  created-AfterInsert :
      (video : ℕ) (r : Result ℕ)
      → Ensures p.view (AfterCreate video r) (created p r) (AfterInsert video)
  unfolding created
  created-AfterInsert video (ok k) = ensures_pure true (λ s h. h)
  created-AfterInsert video (err e) =
      ensures_if (is_dup_key e) _ _ (λ _. ensures_pure false (λ s h. h)) (λ _. ensures_raise e)

  pub insert_like :
      (l : Like) → Ensures p.view LikesCounted (like_ignore_duplicate p l) (AfterInsert l.video_id)
  unfolding like_ignore_duplicate
  insert_like l =
      ensures_if (l.video_id == 0 || l.account_id == 0) _ _ (λ _. ensures_pure false (λ s h. h))
        (λ _.
          ensures_bind (AfterCreate l.video_id) _ _ (ensures_attempt _ (create_like p l))
            (created-AfterInsert l.video_id))

  pub remove_like :
      (video account : ℕ)
      → Ensures p.view LikesCounted
          (delete_by_video_and_account p video account)
          (AfterRemoval video account)
  unfolding delete_by_video_and_account
  remove_like video account =
      ensures_if (video == 0 || account == 0) _ _ (λ _. ensures_pure false (λ s h. h))
        (λ _.
          ensures_bind (Removed video account) _ _ (delete_like p video account)
            (λ n. ensures_pure (ltb 0 n) (removed n)))
    where
      positive : (n : ℕ) → ltb 0 (suc n) ≡ true
      positive n = ground arith

      removed :
          (n : ℕ) (s : State) → Removed video account n s → AfterRemoval video account (ltb 0 n) s
      removed zero s (ls, rows, number, counts, distinct) =
          let same = rows ∙ delete_rows_none (is_pair video account) ls number in
          rw same (counts, distinct)
      removed (suc n) s h = rw (positive n) (n, h)
