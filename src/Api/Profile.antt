-- ===== src/Api/Profile.antt =====
-- internal/api/profile/service.go. A count that cannot be read is 0.
pub mod Handler
use go_video.Prelude.{ℕ, Act, pure, attempt, or_else, ◌>>=◌}
use go_video.Prelude.Int.{ℤ, pos}
use go_video.Prelude.Text.{Text}
use go_video.Services.Platform.{Platform}
use go_video.Api.Account.{find_account}
use go_video.Api.Video.{count_by_author_id, total_likes_by_author_id}
use go_video.Api.Social.{count_followers, count_vloggers}

pub record Profile : Type 0 where
  pub id : ℕ
  pub username : Text
  pub avatar_url : Text
  pub bio : Text
  pub video_count : ℕ
  pub total_likes : ℤ
  pub follower_count : ℕ
  pub vlogger_count : ℕ

module _ {W : Type 0} (p : Platform W) where
  abbrev pub get_account_profile : ℕ → Act W Profile
  get_account_profile account_id = do
    acc ← find_account p account_id
    video_count ← attempt (count_by_author_id p account_id)
    total_likes ← attempt (total_likes_by_author_id p account_id)
    follower_count ← attempt (count_followers p account_id)
    vlogger_count ← attempt (count_vloggers p account_id)
    pure (record {
      id = acc.id;
      username = acc.username;
      avatar_url = acc.avatar_url;
      bio = acc.bio;
      video_count = or_else 0 video_count;
      total_likes = or_else (pos 0) total_likes;
      follower_count = or_else 0 follower_count;
      vlogger_count = or_else 0 vlogger_count;
    })
