-- ===== src/Worker/Like/Tests.antt =====
-- Runs of the like worker in memory.
use go_video.Prelude.{◌>>=◌, ◌≡◌, refl, true, false, Option, some, [], ◌∷◌, ok}
use go_video.Prelude.Text.{Text, lit, text_eq}
use go_video.Entities.{LikeEvent}
use go_video.Simulation.World.{World, state_of}
use go_video.Simulation.Services.{memory_platform}
use go_video.Simulation.Samples.{one_video, one_like, sample_like}
use go_video.Api.Like.Counted.Rows.{LikesCounted}
use go_video.Services.Platform.{time_now}
use go_video.Api.Video.{is_exist, change_likes_count, change_popularity}
use go_video.Api.Like.{like_ignore_duplicate}
use go_video.Worker.Like.{apply_like, process}
use go_video.Worker.Like.Counted.{process-LikesCounted}
use go_video.Worker.Like.Redelivery.{apply_like_again}
use go_video.Worker.Like.Lost.{MissesOne, lost_like}

abbrev sample_event : Text → Option LikeEvent
sample_event _ = some (record {
  event_id = lit "4f";
  action = lit "like";
  user_id = 2;
  video_id = 7;
  occurred_at = 100000;
})

apply_like_counts :
    (state_of (apply_like memory_platform 2 7 one_video).1).videos ≡ (state_of one_like).videos
unfolding apply_like is_exist time_now like_ignore_duplicate change_likes_count change_popularity
    ◌>>=◌
apply_like_counts = refl

process_succeeds : (process memory_platform sample_event (lit "like") one_video).0 ≡ ok tt
unfolding process is_exist time_now like_ignore_duplicate change_likes_count change_popularity ◌>>=◌
    apply_like text_eq
process_succeeds = refl

process-LikesCounted_example :
    LikesCounted (state_of (process memory_platform sample_event (lit "like") one_video).1)
process-LikesCounted_example =
    process-LikesCounted memory_platform sample_event (lit "like") one_video ((refl, tt), tt)
      process_succeeds

apply_like_again_example : state_of (apply_like memory_platform 2 7 one_like).1 ≡ state_of one_like
apply_like_again_example = apply_like_again memory_platform 2 7 one_like refl

-- The third call, the UPDATE of the counter, fails.
abbrev third_call_fails : World
third_call_fails = (state_of one_video, false ∷ false ∷ true ∷ [])

abbrev half_applied : World
half_applied = (record (state_of one_video) { likes = sample_like ∷ [] }, [])

half_applied_likes :
    (state_of (apply_like memory_platform 2 7 third_call_fails).1).likes ≡ sample_like ∷ []
unfolding apply_like is_exist time_now like_ignore_duplicate change_likes_count change_popularity
    ◌>>=◌
half_applied_likes = refl

half_applied_videos :
    (state_of (apply_like memory_platform 2 7 third_call_fails).1).videos
    ≡ (state_of one_video).videos
unfolding apply_like is_exist time_now like_ignore_duplicate change_likes_count change_popularity
    ◌>>=◌
half_applied_videos = refl

half_applied_state :
    state_of half_applied ≡ state_of (apply_like memory_platform 2 7 third_call_fails).1
unfolding apply_like is_exist time_now like_ignore_duplicate change_likes_count change_popularity
    ◌>>=◌
half_applied_state = refl

lost_like_example : MissesOne 7 (state_of (apply_like memory_platform 2 7 half_applied).1)
lost_like_example =
    lost_like memory_platform 2 7 third_call_fails half_applied sample_like (refl, tt) refl
      half_applied_likes refl refl half_applied_videos half_applied_state
