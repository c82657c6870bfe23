-- ===== src/Worker/Like.antt =====
-- internal/worker/like_worker.go. `decode` is json.Unmarshal into a LikeEvent.
pub mod Counted
pub mod Redelivery
pub mod Lost
mod Tests
use go_video.Prelude.{
  ℕ, Bool, true, false, ◌||◌, not, Option, none, some, Result, ok, err, Act, pure, ◌>>=◌, ◌>>◌,
  ◌==◌, if◌then◌else◌,
}
use go_video.Prelude.Int.{pos, negsuc}
use go_video.Prelude.Text.{Text, lit, text_eq}
use go_video.Services.Platform.{Platform, time_now}
use go_video.Entities.{Like, LikeEvent}
use go_video.Api.Video.{is_exist, change_likes_count, change_popularity}
use go_video.Api.Like.{like_ignore_duplicate, delete_by_video_and_account}

module _ {W : Type 0} (p : Platform W) where
  pub apply_like : ℕ → ℕ → Act W (Unit {0})
  apply_like user_id video_id = do
    exists ← is_exist p video_id
    if not exists then pure tt else do
      now ← time_now p
      created ←
          like_ignore_duplicate p
            (record { id = 0; video_id = video_id; account_id = user_id; created_at = now })
      if not created
          then pure tt
          else do change_likes_count p video_id (pos 1); change_popularity p video_id (pos 1)

  pub apply_unlike : ℕ → ℕ → Act W (Unit {0})
  apply_unlike user_id video_id = do
    exists ← is_exist p video_id
    if not exists then pure tt else do
      deleted ← delete_by_video_and_account p video_id user_id
      if not deleted
          then pure tt
          else do change_likes_count p video_id (negsuc 0); change_popularity p video_id (negsuc 0)

  consume : Option LikeEvent → Act W (Unit {0})
  consume none = pure tt
  consume (some evt) =
      if evt.user_id == 0 || evt.video_id == 0
      then pure tt
      else if text_eq evt.action (lit "like")
      then apply_like evt.user_id evt.video_id
      else if text_eq evt.action (lit "unlike")
      then apply_unlike evt.user_id evt.video_id
      else pure tt

  pub process : (Text → Option LikeEvent) → Text → Act W (Unit {0})
  unfolding consume
  process decode body = consume (decode body)
