-- ===== src/Worker/Comment.antt =====
-- internal/worker/comment_worker.go. `decode` is json.Unmarshal into a CommentEvent.
pub mod Redelivery
mod Tests
use go_video.Prelude.{
  ℕ, Bool, true, false, ◌||◌, not, Option, none, some, List, [], Act, pure, ◌>>=◌, ◌>>◌, ◌==◌,
  if◌then◌else◌,
}
use go_video.Prelude.Int.{pos}
use go_video.Prelude.Text.{Text, lit, text_eq, is_empty, trim_space}
use go_video.Services.Platform.{Platform}
use go_video.Entities.{Comment, CommentEvent}
use go_video.Api.Video.{is_exist, change_popularity}
use go_video.Api.Comment.{create_comment_ignore_duplicate, find_comment, delete_comment}

abbrev pub comment_of : CommentEvent → Comment
comment_of evt = record {
  id = 0;
  event_id = evt.event_id;
  username = trim_space evt.username;
  video_id = evt.video_id;
  author_id = evt.author_id;
  content = trim_space evt.content;
  created_at = 0;
}

module _ {W : Type 0} (p : Platform W) where
  pub apply_publish : CommentEvent → Act W (Unit {0})
  apply_publish evt =
      if is_empty evt.event_id
        || evt.video_id == 0
        || evt.author_id == 0
        || is_empty (trim_space evt.content)
      then pure tt
      else (do
        exists ← is_exist p evt.video_id
        if not exists then pure tt else do
          created ← create_comment_ignore_duplicate p (comment_of evt)
          if not created then pure tt else change_popularity p evt.video_id (pos 1))

  delete_found : Option Comment → Act W (Unit {0})
  delete_found none = pure tt
  delete_found (some c) = delete_comment p c

  pub apply_delete : CommentEvent → Act W (Unit {0})
  unfolding delete_found
  apply_delete evt =
      if evt.comment_id == 0
      then pure tt
      else (do found ← find_comment p evt.comment_id; delete_found found)

  consume : Option CommentEvent → Act W (Unit {0})
  consume none = pure tt
  consume (some evt) =
      if text_eq evt.action (lit "publish")
      then apply_publish evt
      else if text_eq evt.action (lit "delete")
      then apply_delete evt
      else pure tt

  pub process : (Text → Option CommentEvent) → Text → Act W (Unit {0})
  unfolding consume
  process decode body = consume (decode body)
