-- ===== src/Api/Like/Promises.antt =====
-- Like and Unlike report success only when the change is stored or asked for.
use go_video.Prelude.{
  ok, ◌>>=◌, ◌≡◌, ◌⊎◌, inr, Bool, true, false, ◌&&◌, ◌||◌, some, Act, pure, arith, ◌==◌,
  if◌then◌else◌,
}
use go_video.Prelude.Int.{ℤ, pos, negsuc}
use go_video.Prelude.Text.{Text, lit}
use go_video.Services.Keeps.{Keeps-time_now}
use go_video.Services.Ensures.{
  Ensures, ensures_bind, ensures_keeps, ensures_pure, ensures_raise, ensures_if,
}
use go_video.Services.Platform.{Platform}
use go_video.Entities.{State, Like}
use go_video.Middleware.Rabbitmq.{mq_update_popularity}
use go_video.Middleware.Rabbitmq.Facts.{IsCacheFree, Keeps-mq_update_popularity}
use go_video.Api.Like.{LikeService, like, unlike, enqueue, fallback, like_now, unlike_now}
use go_video.Api.Like.Outcomes.{Keeps-check_video, Keeps-is_liked, Keeps-enqueue}
use go_video.Api.Like.Recorded.{
  IsQueued, IsStored, SentIf, SentIf-IsCacheFree, ensures_fallback, ensures_enqueue,
  IsStored-IsCacheFree, like_body-IsStored, unlike_body-IsStored, mq_like-IsQueued,
  mq_unlike-IsQueued,
}

module _ {W : Type 0} (p : Platform W) where
  -- What follows the attempt to publish the change.
  ensures_rest :
      (action : Text) (l : Like) (Q : State → Type 0) (b both : Bool) (change : ℤ)
      (body : Act W (Unit {0}))
      → IsCacheFree Q
      → Ensures p.view (λ _. Unit {0}) body (λ _. Q)
      → Ensures p.view
          (SentIf p action l b)
          (do
            r ← enqueue p both (mq_update_popularity p l.video_id change)
            if b && r then pure tt else fallback p b r body l.video_id change)
          (λ _ s. Q s ⊎ IsQueued action l s)
  ensures_rest action l Q b both change body free h =
      ensures_bind (λ _. SentIf p action l b) _ _
        (ensures_keeps _ (
          Keeps-enqueue p both _
            (Keeps-mq_update_popularity p _ (SentIf-IsCacheFree p action l b) l.video_id change)))
        (λ r.
          ensures_if (b && r) _ _ (λ e. ensures_pure tt (λ s x. inr (sent b r e s x)))
            (λ _. ensures_fallback p action l b r body l.video_id change Q free h))
    where
      sent :
          (b r : Bool) → (b && r) ≡ true → (s : State) → SentIf p action l b s → IsQueued action l s
      sent true r e s x = x
      sent false r e s x = absurd (ground arith)

  ensures_like :
      (s : LikeService) (l : Like)
      → Ensures p.view
          (λ _. Unit {0})
          (like p s (some l))
          (λ _ st. IsStored true l st ⊎ IsQueued (lit "like") l st)
  unfolding like like_now
  ensures_like s l =
      ensures_if (l.video_id == 0 || l.account_id == 0) _ _ (λ _. ensures_raise _)
        (λ _.
          ensures_bind (λ _ _. Unit {0}) _ _ (ensures_keeps _ (Keeps-check_video p s.video_repo _))
            (λ _.
              ensures_bind (λ _ _. Unit {0}) _ _ (ensures_keeps _ (Keeps-is_liked p _ _))
                (λ liked.
                  ensures_if liked _ _ (λ _. ensures_raise _)
                    (λ _.
                      ensures_bind (λ _ _. Unit {0}) _ _ (ensures_keeps _ (Keeps-time_now p))
                        (λ now.
                          ensures_bind (SentIf p (lit "like") l) _ _
                            (ensures_enqueue p (lit "like") l s.like_mq _ (mq_like-IsQueued p l))
                            (λ b.
                              ensures_rest (lit "like") l (IsStored true l) b s.popularity_mq
                                (pos 1) _ (IsStored-IsCacheFree true l)
                                (like_body-IsStored p (record l { created_at = now }))))))))

  ensures_unlike :
      (s : LikeService) (l : Like)
      → Ensures p.view
          (λ _. Unit {0})
          (unlike p s (some l))
          (λ _ st. IsStored false l st ⊎ IsQueued (lit "unlike") l st)
  unfolding unlike unlike_now
  ensures_unlike s l =
      ensures_if (l.video_id == 0 || l.account_id == 0) _ _ (λ _. ensures_raise _)
        (λ _.
          ensures_bind (λ _ _. Unit {0}) _ _ (ensures_keeps _ (Keeps-check_video p s.video_repo _))
            (λ _.
              ensures_bind (λ _ _. Unit {0}) _ _ (ensures_keeps _ (Keeps-is_liked p _ _))
                (λ liked.
                  ensures_if liked _ _
                    (λ _.
                      ensures_bind (SentIf p (lit "unlike") l) _ _
                        (ensures_enqueue p (lit "unlike") l s.like_mq _ (mq_unlike-IsQueued p l))
                        (λ b.
                          ensures_rest (lit "unlike") l (IsStored false l) b s.popularity_mq
                            (negsuc 0) _ (IsStored-IsCacheFree false l) (unlike_body-IsStored p l)))
                    (λ _. ensures_raise _))))

  -- When Like reports success, the user's like is in the table, or the client took a publication
  -- that asks for it, on the like exchange and under the routing key of a like. Without confirms this
  -- does not say that the broker has it.
  pub like_recorded :
      (s : LikeService) (l : Like) (w : W)
      → (like p s (some l) w).0 ≡ ok tt
      → IsStored true l (p.view (like p s (some l) w).1)
        ⊎ IsQueued (lit "like") l (p.view (like p s (some l) w).1)
  like_recorded s l w done = (ensures_like s l).at w tt tt done

  -- When Unlike reports success, the user's like is gone from the table, or the client took a
  -- publication that asks for its removal.
  pub unlike_recorded :
      (s : LikeService) (l : Like) (w : W)
      → (unlike p s (some l) w).0 ≡ ok tt
      → IsStored false l (p.view (unlike p s (some l) w).1)
        ⊎ IsQueued (lit "unlike") l (p.view (unlike p s (some l) w).1)
  unlike_recorded s l w done = (ensures_unlike s l).at w tt tt done
