-- ===== src/Worker/Comment/Redelivery.antt =====
-- The broker may deliver a comment event twice.
use go_video.Prelude.{
  ◌==◌, ◌≡◌, refl, inl, inr, ◌∙◌, Bool, true, false, ◌||◌, not, any, Act, pure, if◌then◌else◌,
}
use go_video.Prelude.Text.{text_eq, is_empty, trim_space}
use go_video.Services.Sql.{Performs, performs_cases}
use go_video.Services.Performs.{
  performs_if, performs_pure, performs_bind, performs_after, quiet_of_Keeps,
}
use go_video.Services.Platform.{Platform}
use go_video.Entities.{CommentEvent, State}
use go_video.Api.Video.Facts.{Keeps-is_exist}
use go_video.Api.Comment.Repeated.{insert_comment_repeated}
use go_video.Worker.Comment.{apply_publish, comment_of}

module _ {W : Type 0} (p : Platform W) where
  stops :
      (rest : Act W (Unit {0})) (b : Bool) (w : W) (s : State)
      → b ≡ false
      → p.view w ≡ s
      → Performs p.view w ((if not b then pure tt else rest) w) (λ _ x. x ≡ s)
  stops rest true w s e same = absurd (cc)
  stops rest false w s e same = performs_pure _ tt w same

  apply_publish_repeated :
      (evt : CommentEvent) (w : W)
      → any (λ c. text_eq evt.event_id c.event_id) (p.view w).comments ≡ true
      → Performs p.view w (apply_publish p evt w) (λ _ s. s ≡ p.view w)
  unfolding apply_publish
  apply_publish_repeated evt w there =
      performs_if _
        (is_empty evt.event_id
          || evt.video_id == 0
          || evt.author_id == 0
          || is_empty (trim_space evt.content))
        _ _ w (performs_pure _ tt w refl)
        (performs_after _ _ _ w (quiet_of_Keeps _ w (Keeps-is_exist p evt.video_id))
          (λ exists w1 s1. performs_if _ (not exists) _ _ w1 (performs_pure _ tt w1 s1) (
            performs_bind (λ b. b ≡ false) _ _ _ w1
              (insert_comment_repeated p (comment_of evt) w1 (rw s1 there))
              (λ b w2 none_made s2. stops _ b w2 (p.view w) none_made (s2 ∙ s1)))))

  -- Applying the event of a comment that is in the table changes nothing, whether it succeeds or
  -- fails.
  pub apply_publish_again :
      (evt : CommentEvent) (w : W)
      → any (λ c. text_eq evt.event_id c.event_id) (p.view w).comments ≡ true
      → p.view (apply_publish p evt w).1 ≡ p.view w
  apply_publish_again evt w there = elim (performs_cases (apply_publish_repeated evt w there)) [
    | inl (a, e, same) ↦ same
    | inr (x, e, same) ↦ same
  ]
