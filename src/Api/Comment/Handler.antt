-- ===== src/Api/Comment/Handler.antt =====
-- internal/api/comment/handler.go. The body of PublishComment is the video id and the text, that of
-- the others an id.
use go_video.Prelude.{ℕ, Option, some, List, [], Result, message, Act, pure, attempt, ◌>>=◌, ◌==◌}
use go_video.Prelude.Text.{Text, is_empty}
use go_video.Services.Platform.{Platform}
use go_video.Entities.{Comment}
use go_video.Api.Http.{
  Response, classified, get_account_id, get_username, respond_classified, or_return, unless_bad,
}
use go_video.Api.Comment.{CommentService, publish, delete, list_all}

abbrev pub new_comment : Text → ℕ → ℕ → Text → Comment
new_comment username video_id author_id content = record {
  id = 0;
  event_id = [];
  username = username;
  video_id = video_id;
  author_id = author_id;
  content = content;
  created_at = 0;
}

module _ {W : Type 0} (p : Platform W) where
  -- CommentHandler.PublishComment
  abbrev pub handle_publish_comment :
      CommentService → Result (ℕ × Text) → Option ℕ → Option Text → Act W (Response (Unit {0}))
  handle_publish_comment s body account name = or_return classified body (λ (video_id, content).
      unless_bad (is_empty content) (message "content is required") (
        unless_bad (video_id == 0) (message "video_id is required") (
          or_return classified (get_account_id account) (λ author_id.
            or_return classified (get_username name) (λ username. do
              result ←
                  attempt (publish p s (some (new_comment username video_id author_id content)))
              pure (respond_classified result))))))

  -- CommentHandler.DeleteComment
  abbrev pub handle_delete_comment :
      CommentService → Result ℕ → Option ℕ → Act W (Response (Unit {0}))
  handle_delete_comment s body account = or_return classified body (λ comment_id.
      or_return classified (get_account_id account) (λ account_id.
        unless_bad (comment_id == 0) (message "comment_id is required") (do
          result ← attempt (delete p s comment_id account_id)
          pure (respond_classified result))))

  -- CommentHandler.ListAllComments
  abbrev pub handle_list_all_comments : Result ℕ → Act W (Response (List Comment))
  handle_list_all_comments body = or_return classified body (λ video_id.
      unless_bad (video_id == 0) (message "video_id is required")
        (do result ← attempt (list_all p video_id); pure (respond_classified result)))
