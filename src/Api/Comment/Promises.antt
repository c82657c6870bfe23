-- ===== src/Api/Comment/Promises.antt =====
-- What CommentService.Publish promises.
use go_video.Prelude.{
  if◌then◌else◌, ◌≡◌, ◌⊎◌, inl, inr, Bool, true, false, ◌&&◌, ◌||◌, not, some, ok, ◌==◌, pure,
}
use go_video.Prelude.Int.{pos}
use go_video.Prelude.Text.{is_empty}
use go_video.Services.Keeps.{Keeps-if, Keeps-pure}
use go_video.Services.Ensures.{
  Ensures, ensures_bind, ensures_keeps, ensures_pure, ensures_raise, ensures_if, ensures_weaken,
  IfDone, ensures_any,
}
use go_video.Services.Platform.{Platform}
use go_video.Entities.{Comment, State}
use go_video.Middleware.Rabbitmq.Facts.{
  IfDone-IsCacheFree, either-IsCacheFree, Keeps-mq_update_popularity,
}
use go_video.Api.Video.Facts.{Keeps-update_popularity_cache}
use go_video.Api.Like.Outcomes.{Keeps-enqueue}
use go_video.Api.Like.Recorded.{ensures_enqueued}
use go_video.Api.Comment.{CommentService, store, publish_now, publish, trimmed}
use go_video.Api.Comment.Recorded.{
  IsPosted, IsPostAsked, IsPosted-IsCacheFree, IsPostAsked-IsCacheFree, store-IsPosted,
  mq_publish_comment-IsPostAsked,
}

module _ {W : Type 0} (p : Platform W) where
  both :
      (b r : Bool) (c : Comment) (s : State)
      → (b && r) ≡ true
      → IfDone (IsPostAsked c) b s
      → IsPosted c s ⊎ IsPostAsked c s
  both true r c s e x = inr x
  both false r c s e x = absurd (cc)

  stored_or_asked :
      (b : Bool) (c : Comment)
      → Ensures p.view
          (IfDone (IsPostAsked c) b)
          (if b then pure tt else store p c)
          (λ _ s. IsPosted c s ⊎ IsPostAsked c s)
  stored_or_asked true c = ensures_pure tt (λ s x. inr x)
  stored_or_asked false c = ensures_weaken _ (λ s x. tt) (λ a s x. inl x) (store-IsPosted p c)

  publish_now_recorded :
      (s : CommentService) (c : Comment)
      → Ensures p.view
          (λ _. Unit {0})
          (publish_now p s c)
          (λ _ st. IsPosted c st ⊎ IsPostAsked c st)
  unfolding publish_now
  publish_now_recorded s c =
      ensures_bind (IfDone (IsPostAsked c)) _ _
        (ensures_enqueued p s.comment_mq _ (mq_publish_comment-IsPostAsked p c))
        (λ b.
          ensures_bind (λ _. IfDone (IsPostAsked c) b) _ _
            (ensures_keeps _ (
              Keeps-enqueue p s.popularity_mq _ (
                Keeps-mq_update_popularity p _ (IfDone-IsCacheFree (IsPostAsked-IsCacheFree c) b)
                  c.video_id (pos 1))))
            (λ r.
              ensures_if (b && r) _ _ (λ e. ensures_pure tt (λ st x. both b r c st e x))
                (λ _.
                  ensures_bind (λ _ st. IsPosted c st ⊎ IsPostAsked c st) _ _ (stored_or_asked b c)
                    (λ _. ensures_keeps _ (
                      Keeps-if r _ _ (Keeps-pure tt) (
                        Keeps-update_popularity_cache p _
                          (either-IsCacheFree (IsPosted-IsCacheFree c) (IsPostAsked-IsCacheFree c))
                          c.video_id (pos 1)))))))

  -- When Publish reports success, a comment with the trimmed text is in the table, or the client
  -- took a publication that asks for it, on the comment exchange and under the routing key of a
  -- comment. Without confirms this does not say that the broker has it.
  pub publish_recorded :
      (s : CommentService) (c : Comment) (w : W)
      → (publish p s (some c) w).0 ≡ ok tt
      → IsPosted (trimmed c) (p.view (publish p s (some c) w).1)
        ⊎ IsPostAsked (trimmed c) (p.view (publish p s (some c) w).1)
  unfolding publish
  publish_recorded s c w done =
      (ensures_if {P = λ _. Unit {0}} (c.video_id == 0 || c.author_id == 0) _ _
          (λ _. ensures_raise _)
          (λ _.
            ensures_if (is_empty (trimmed c).content) _ _ (λ _. ensures_raise _)
              (λ _.
                ensures_bind (λ _ _. Unit {0}) _ _ (ensures_any _)
                  (λ exists.
                    ensures_if (not exists) _ _ (λ _. ensures_raise _)
                      (λ _. publish_now_recorded s (trimmed c)))))).at
        w tt tt done
