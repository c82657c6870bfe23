-- ===== src/Api/Comment/Repeated.antt =====
-- Inserting a comment whose event id is there.
use go_video.Prelude.{◌≡◌, refl, inl, inr, Bool-cases, true, false, any, is_dup_key, ◌>>=◌}
use go_video.Prelude.Text.{text_eq, is_empty}
use go_video.Services.Sql.{Performs, answered, refused}
use go_video.Services.Performs.{performs_if}
use go_video.Services.Platform.{Platform, time_now}
use go_video.Entities.{Comment}
use go_video.Api.Comment.{create_comment, created, create_comment_ignore_duplicate}

module _ {W : Type 0} (p : Platform W) where
  pub insert_comment_repeated :
      (c : Comment) (w : W)
      → any (λ d. text_eq c.event_id d.event_id) (p.view w).comments ≡ true
      → Performs p.view w
          (create_comment_ignore_duplicate p c w)
          (λ b s. (b ≡ false) × (s ≡ p.view w))
  unfolding create_comment_ignore_duplicate create_comment created time_now ◌>>=◌
  insert_comment_repeated c w there =
      performs_if _ (is_empty c.event_id) _ _ w (answered false refl (refl, refl))
        (elim (p.comments.create_lem (record c { created_at = p.now w }) w) [
          | inl (k, e, _, _, fresh, same) ↦ absurd (cc (fresh, there))
          | inr (inl (e, _, same)) ↦ rw e (answered false refl (refl, same))
          | inr (inr (x, e, new, same)) ↦ elim (Bool-cases (is_dup_key x)) [
            | inl dup ↦ rw (e, dup) (answered false refl (refl, same))
            | inr other ↦ rw (e, other) (refused x refl same)
          ]
        ])
