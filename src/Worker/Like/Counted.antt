-- ===== src/Worker/Like/Counted.antt =====
-- A like event that the worker processed without an error leaves every counter equal to the number
-- of its rows, and a second delivery of it changes nothing.
use go_video.Prelude.{
  if◌then◌else◌, ◌>>◌, ℕ, suc, ◌≡◌, Bool, true, false, ◌||◌, not, Option, none, some, ok, pure,
  arith, ◌==◌,
}
use go_video.Prelude.Int.{ℤ, pos, negsuc, ◌+ℤ◌, greatest_zero}
use go_video.Prelude.Text.{Text, lit, text_eq}
use go_video.Services.Keeps.{Keeps-time_now}
use go_video.Services.Ensures.{
  ensures_some, Ensures, ensures_bind, ensures_keeps, ensures_pure, ensures_if,
}
use go_video.Services.Platform.{Platform}
use go_video.Entities.{LikeEvent}
use go_video.Api.Video.{change_likes_count, change_popularity}
use go_video.Api.Video.Facts.{Keeps-is_exist, ensures_change_likes_count, ensures_change_popularity}
use go_video.Api.Like.Counted.{count_like, count_unlike, popularity-LikesCounted}
use go_video.Api.Like.Counted.Rows.{LikesCounted}
use go_video.Api.Like.Counted.Single.{AfterInsert, AfterRemoval, insert_like, remove_like}
use go_video.Worker.Like.{apply_like, apply_unlike, process, consume}

module _ {W : Type 0} (p : Platform W) (user video : ℕ) where
  popularity_step :
      (change : ℤ)
      → Ensures p.view LikesCounted (change_popularity p video change) (λ _. LikesCounted)
  popularity_step change =
      ensures_change_popularity p video change
        (ensures_keeps _ (popularity-LikesCounted p _ (λ x. greatest_zero (x +ℤ change))))

  inserted :
      (created : Bool)
      → Ensures p.view
          (AfterInsert video created)
          (if not created
            then pure tt
            else do change_likes_count p video (pos 1); change_popularity p video (pos 1))
          (λ _. LikesCounted)
  inserted false = ensures_pure tt (λ s h. h)
  inserted true =
      ensures_bind (λ _. LikesCounted) _ _
        (ensures_change_likes_count p video (pos 1)
          (count_like p video (λ x. greatest_zero (x +ℤ pos 1)) (λ n. ground arith)))
        (λ _. popularity_step (pos 1))

  removed :
      (deleted : Bool)
      → Ensures p.view
          (AfterRemoval video user deleted)
          (if not deleted
            then pure tt
            else do change_likes_count p video (negsuc 0); change_popularity p video (negsuc 0))
          (λ _. LikesCounted)
  removed false = ensures_pure tt (λ s h. h)
  removed true =
      ensures_bind (λ _. LikesCounted) _ _
        (ensures_change_likes_count p video (negsuc 0) (
          ensures_some _ (λ n.
            count_unlike p video user (suc n) (λ v. v.id == video)
              (λ x. greatest_zero (x +ℤ negsuc 0)) (ground arith) (λ v e. e) (λ v m e f. e)
              (λ m. ground arith))))
        (λ _. popularity_step (negsuc 0))

  -- A like that the worker applies without an error.
  pub apply_like-LikesCounted :
      Ensures p.view LikesCounted (apply_like p user video) (λ _. LikesCounted)
  unfolding apply_like
  apply_like-LikesCounted =
      ensures_bind (λ _. LikesCounted) _ _ (ensures_keeps _ (Keeps-is_exist p video))
        (λ exists.
          ensures_if (not exists) _ _ (λ _. ensures_pure tt (λ s h. h))
            (λ _.
              ensures_bind (λ _. LikesCounted) _ _ (ensures_keeps _ (Keeps-time_now p))
                (λ now. ensures_bind (AfterInsert video) _ _ (insert_like p _) inserted)))

  -- An unlike that the worker applies without an error.
  pub apply_unlike-LikesCounted :
      Ensures p.view LikesCounted (apply_unlike p user video) (λ _. LikesCounted)
  unfolding apply_unlike
  apply_unlike-LikesCounted =
      ensures_bind (λ _. LikesCounted) _ _ (ensures_keeps _ (Keeps-is_exist p video))
        (λ exists.
          ensures_if (not exists) _ _ (λ _. ensures_pure tt (λ s h. h))
            (λ _. ensures_bind (AfterRemoval video user) _ _ (remove_like p video user) removed))

module _ {W : Type 0} (p : Platform W) where
  consume-LikesCounted :
      (evt : Option LikeEvent) → Ensures p.view LikesCounted (consume p evt) (λ _. LikesCounted)
  unfolding consume
  consume-LikesCounted none = ensures_pure tt (λ s h. h)
  consume-LikesCounted (some evt) =
      ensures_if (evt.user_id == 0 || evt.video_id == 0) _ _ (λ _. ensures_pure tt (λ s h. h))
        (λ _.
          ensures_if (text_eq evt.action (lit "like")) _ _
            (λ _. apply_like-LikesCounted p evt.user_id evt.video_id)
            (λ _.
              ensures_if (text_eq evt.action (lit "unlike")) _ _
                (λ _. apply_unlike-LikesCounted p evt.user_id evt.video_id)
                (λ _. ensures_pure tt (λ s h. h))))

  -- A delivery that the like worker processes without an error leaves the counter of every video
  -- equal to the number of its rows in the likes table, if that held before.
  pub process-LikesCounted :
      (decode : Text → Option LikeEvent) (body : Text) (w : W)
      → LikesCounted (p.view w)
      → (process p decode body w).0 ≡ ok tt
      → LikesCounted (p.view (process p decode body w).1)
  unfolding process
  process-LikesCounted decode body w h done = (consume-LikesCounted (decode body)).at w h tt done
