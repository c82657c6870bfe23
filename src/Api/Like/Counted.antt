-- ===== src/Api/Like/Counted.antt =====
-- The counter of a video against the rows of the likes table, across LikeService's transactions.
pub mod Rows
pub mod Single
pub mod Repeated
use go_video.Prelude.{
  keep, length, ◌≢◌, record_not_found, is_dup_key, suc, ℕ, ◌≡◌, inl, inr, refl, ◌&&◌, List, [], ◌∷◌,
  ◌++◌, ok, err, Act, ◌>>=◌, arith, any, ◌==◌, subst, sym,
}
use go_video.Prelude.Int.{ℤ, pos, negsuc, ◌+ℤ◌, ltb_ℤ}
use go_video.Services.Sql.{performs_cases, update_rows, delete_rows}
use go_video.Services.Keeps.{Keeps-transaction, Keeps-first, Keeps-attempt, Keeps-performs, Keeps}
use go_video.Services.Ensures.{
  ensures_attempt, ensures_if, ensures_keeps, ensures_raise, ensures_bind, ensures_pure,
  ensures_performs, Ensures,
}
use go_video.Services.Platform.{Platform}
use go_video.Entities.{Like, Video, State}
use go_video.Entities.Schemas.{like_schema}
use go_video.Api.Like.{
  true, false, is_dup_key, Bool, Result, like_body, unlike_body, video_found, like_created, is_pair,
}
use Rows.{LikesCounted, Distinct, Counts}
use go_video.Api.Like.Counted.Rows.{
  Distinct-delete_rows, length-keep-le, Counts-delete_rows, Counts-append, Counts-update_rows,
  Distinct-append,
}

-- A row for the video is in the table and not yet on the counter.
abbrev pub Uncounted : ℕ → State → Type 0
Uncounted video s =
    (ls : List Like) × (r : Like) × (r.video_id ≡ video)
    × (s.likes ≡ ls ++ r ∷ [])
    × Counts ls s.videos
    × Distinct s.likes

abbrev pub AfterCreate : ℕ → Result ℕ → State → Type 0
AfterCreate video (ok _) = Uncounted video
AfterCreate video (err _) = LikesCounted

module _ {W : Type 0} (p : Platform W) where
  pub create_like :
      (l : Like) (w : W)
      → LikesCounted (p.view w)
      → AfterCreate l.video_id (p.likes.create l w).0 (p.view (p.likes.create l w).1)
  create_like l w h = elim (p.likes.create_lem l w) [
    | inl (k, e, _, _, fresh, same) ↦
        rw (e, same)
          (
            (p.view w).likes,
            record l { id = k },
            refl,
            refl,
            h.0,
            Distinct-append (record l { id = k }) (p.view w).likes fresh h.1,
          )
    | inr (inl (e, _, same)) ↦ rw (e, same) h
    | inr (inr (x, e, _, same)) ↦ rw (e, same) h
  ]

  -- The UPDATE that puts the row on the counter.
  pub count_like :
      (video : ℕ) (step : ℤ → ℤ)
      → ((n : ℕ) → step (pos n) ≡ pos (suc n))
      → Ensures p.view
          (Uncounted video)
          (p.videos.update
            (λ v. v.id == video)
            (λ v. record v { likes_count = step v.likes_count }))
          (λ _. LikesCounted)
  count_like video step grows =
      ensures_performs _ _ (p.videos.update_lem _ _)
        (λ w n s' (ls, r, at_video, rows, counts, distinct) post. subst LikesCounted (sym post.1) (
          rw rows (
            subst
                (λ i. Counts (ls ++ r ∷ []) (
                  update_rows (λ v. v.id == i) (λ v. record v { likes_count = step v.likes_count })
                    (p.view w).videos))
                at_video (Counts-append r ls step (p.view w).videos grows counts),
            subst Distinct rows distinct,
          )))

  -- An UPDATE of the popularity.
  pub popularity-LikesCounted :
      (q : Video → Bool) (g : ℤ → ℤ)
      → Keeps p.view LikesCounted
          (p.videos.update q (λ v. record v { popularity = g v.popularity }))
  popularity-LikesCounted q g = Keeps-performs _ _ (p.videos.update_lem q _) (λ w n s h post.
      subst LikesCounted (sym post.1)
        (Counts-update_rows (p.view w).likes q _ (p.view w).videos (λ v. (refl, refl)) h.0, h.1))

  after_found :
      (r : Result Video) → Ensures p.view LikesCounted (video_found p r) (λ _. LikesCounted)
  unfolding video_found
  after_found (ok v) = ensures_pure tt (λ s h. h)
  after_found (err record_not_found) = ensures_raise _
  after_found (err e) = ensures_raise e

  after_created :
      (video : ℕ) (r : Result ℕ)
      → Ensures p.view (AfterCreate video r) (like_created p r) (λ _. Uncounted video)
  unfolding like_created
  after_created video (ok k) = ensures_pure tt (λ s h. h)
  after_created video (err e) =
      ensures_if (is_dup_key e) _ _ (λ _. ensures_raise _) (λ _. ensures_raise _)

  -- LIKE: the transaction's body, when it succeeds.
  pub like_body-LikesCounted :
      (l : Like) → Ensures p.view LikesCounted (like_body p l) (λ _. LikesCounted)
  unfolding like_body
  like_body-LikesCounted l =
      ensures_bind (λ _. LikesCounted) _ _
        (ensures_keeps _ (Keeps-attempt _ (Keeps-first p.videos _)))
        (λ found.
          ensures_bind (λ _. LikesCounted) _ _ (after_found found)
            (λ _.
              ensures_bind (AfterCreate l.video_id) _ _ (ensures_attempt _ (create_like l)) (λ r.
                ensures_bind (λ _. Uncounted l.video_id) _ _ (after_created l.video_id r)
                  (λ _.
                    ensures_bind (λ _. LikesCounted) _ _
                      (count_like l.video_id (λ x. x +ℤ pos 1) (λ n. ground arith))
                      (λ _.
                        ensures_bind (λ _. LikesCounted) _ _
                          (ensures_keeps _ (popularity-LikesCounted _ (λ x. x +ℤ pos 1)))
                          (λ _. ensures_pure tt (λ s h. h)))))))

-- So many rows of the user and the video are gone from the table and still on the counter.
abbrev pub Removed : ℕ → ℕ → ℕ → State → Type 0
Removed video account n s =
    (ls : List Like) × (s.likes ≡ delete_rows (is_pair video account) ls)
    × (length (keep (is_pair video account) ls) ≡ n)
    × Counts ls s.videos
    × Distinct ls

module _ {W : Type 0} (p : Platform W) (video account : ℕ) where
  pub delete_like :
      Ensures p.view LikesCounted (p.likes.delete (is_pair video account)) (Removed video account)
  delete_like = ensures_performs _ _ (p.likes.delete_lem (is_pair video account)) (λ w n s h post.
      subst (Removed video account n) (sym post.1) ((p.view w).likes, refl, sym post.0, h.0, h.1))

  -- The UPDATE that takes the row off the counter.
  pub count_unlike :
      (n : ℕ) (q : Video → Bool) (step : ℤ → ℤ)
      → n ≢ 0
      → ((v : Video) → (v.id == video) ≡ false → q v ≡ false)
      → ((v : Video) (m : ℕ) → (v.id == video) ≡ true → v.likes_count ≡ pos (suc m) → q v ≡ true)
      → ((m : ℕ) → step (pos (suc m)) ≡ pos m)
      → Ensures p.view
          (Removed video account n)
          (p.videos.update q (λ v. record v { likes_count = step v.likes_count }))
          (λ _. LikesCounted)
  count_unlike n q step some_there miss hit falls =
      ensures_performs _ _ (p.videos.update_lem _ _)
        (λ w m s (ls, rows, number, counts, distinct) post. subst LikesCounted (sym post.1) (
          rw rows (
            Counts-delete_rows video account ls q step (p.view w).videos
                (omega (arith, number, some_there, length-keep-le video account ls distinct)) miss
                hit falls counts,
            Distinct-delete_rows (is_pair video account) ls distinct,
          )))

module _ {W : Type 0} (p : Platform W) where
  -- UNLIKE: the transaction's body, when it succeeds.
  pub unlike_body-LikesCounted :
      (l : Like) → Ensures p.view LikesCounted (unlike_body p l) (λ _. LikesCounted)
  unfolding unlike_body
  unlike_body-LikesCounted l =
      ensures_bind (Removed l.video_id l.account_id) _ _ (delete_like p l.video_id l.account_id)
        (λ n.
          ensures_if (n == 0) _ _ (λ _. ensures_raise _)
            (λ some_there.
              ensures_bind (λ _. LikesCounted) _ _
                (count_unlike p l.video_id l.account_id n _ (λ x. x +ℤ negsuc 0) (ground arith)
                  (λ v e. ground arith) (λ v m e f. ground arith) (λ m. ground arith))
                (λ _.
                  ensures_bind (λ _. LikesCounted) _ _
                    (ensures_keeps _ (popularity-LikesCounted p _ (λ x. x +ℤ negsuc 0)))
                    (λ _. ensures_pure tt (λ s h. h)))))

  -- The two transactions of LikeService, committed or rolled back.
  pub like_transaction-LikesCounted :
      (l : Like) → Keeps p.view LikesCounted (p.transactions.transaction (like_body p l))
  like_transaction-LikesCounted l =
      Keeps-transaction p.transactions _ (λ w h e. (like_body-LikesCounted p l).at w h tt e)

  pub unlike_transaction-LikesCounted :
      (l : Like) → Keeps p.view LikesCounted (p.transactions.transaction (unlike_body p l))
  unlike_transaction-LikesCounted l =
      Keeps-transaction p.transactions _ (λ w h e. (unlike_body-LikesCounted l).at w h tt e)
