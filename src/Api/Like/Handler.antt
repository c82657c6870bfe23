-- ===== src/Api/Like/Handler.antt =====
-- internal/api/like/handler.go. A request's body is its video id.
use go_video.Prelude.{ℕ, Bool, Option, some, List, Result, message, Act, pure, attempt, ◌>>=◌, ◌==◌}
use go_video.Services.Platform.{Platform}
use go_video.Entities.{Like, Video}
use go_video.Api.Http.{Response, classified, get_account_id, respond, or_return, unless_bad}
use go_video.Api.Like.{LikeService, like, unlike, is_liked, list_liked_videos}

abbrev pub like_of : ℕ → ℕ → Like
like_of video_id account_id = record {
  id = 0;
  video_id = video_id;
  account_id = account_id;
  created_at = 0;
}

module _ {W : Type 0} (p : Platform W) where
  -- LikeHandler.Like
  abbrev pub handle_like : LikeService → Result ℕ → Option ℕ → Act W (Response (Unit {0}))
  handle_like s body context = or_return classified body (λ video_id.
      unless_bad (video_id == 0) (message "video_id is required") (
        or_return classified (get_account_id context) (λ account_id. do
          result ← attempt (like p s (some (like_of video_id account_id)))
          pure (respond 500 result))))

  -- LikeHandler.Unlike
  abbrev pub handle_unlike : LikeService → Result ℕ → Option ℕ → Act W (Response (Unit {0}))
  handle_unlike s body context = or_return classified body (λ video_id.
      unless_bad (video_id == 0) (message "video_id is required") (
        or_return classified (get_account_id context) (λ account_id. do
          result ← attempt (unlike p s (some (like_of video_id account_id)))
          pure (respond 500 result))))

  -- LikeHandler.IsLiked
  abbrev pub handle_is_liked : Result ℕ → Option ℕ → Act W (Response Bool)
  handle_is_liked body context = or_return classified body (λ video_id.
      unless_bad (video_id == 0) (message "video_id is required") (
        or_return classified (get_account_id context) (λ account_id. do
          result ← attempt (is_liked p video_id account_id)
          pure (respond 500 result))))

  -- LikeHandler.ListMyLikedVideos
  abbrev pub handle_list_my_liked_videos : Option ℕ → Act W (Response (List Video))
  handle_list_my_liked_videos context = or_return classified (get_account_id context) (λ account_id.
      do result ← attempt (list_liked_videos p account_id); pure (respond 500 result))
