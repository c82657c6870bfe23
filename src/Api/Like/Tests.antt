-- ===== src/Api/Like/Tests.antt =====
-- Runs of LikeService in memory.
use go_video.Prelude.{◌≡◌, ◌⊎◌, refl, true, false, some, ok, ◌>>=◌}
use go_video.Prelude.Text.{lit}
use go_video.Services.Platform.{time_now}
use go_video.Middleware.Rabbitmq.{mq_like, mq_update_popularity, publish_json, rand_hex}
use go_video.Simulation.World.{state_of}
use go_video.Simulation.Services.{memory_platform}
use go_video.Simulation.Samples.{one_video, one_like, sample_like}
use go_video.Api.Video.{is_exist, update_popularity_cache}
use go_video.Api.Like.{LikeService, like, unlike, is_liked, enqueue, like_body, unlike_body}
use go_video.Api.Like.Counted.Rows.{LikesCounted}
use go_video.Api.Like.Outcomes.{like-LikesCounted}
use go_video.Api.Like.Promises.{like_recorded}
use go_video.Api.Like.Recorded.{IsStored, IsQueued}

-- No producer is set: every like goes through the transaction.
abbrev without_queues : LikeService
without_queues = record { video_repo = true; like_mq = false; popularity_mq = false }

abbrev with_queues : LikeService
with_queues = record { video_repo = true; like_mq = true; popularity_mq = true }

like_stores :
    (state_of (like memory_platform without_queues (some sample_like) one_video).1).videos
    ≡ (state_of one_like).videos
unfolding like is_exist is_liked ◌>>=◌ time_now update_popularity_cache enqueue like_body
like_stores = refl

like_queues : (like memory_platform with_queues (some sample_like) one_video).0 ≡ ok tt
unfolding like is_exist is_liked ◌>>=◌ time_now mq_like mq_update_popularity publish_json rand_hex
    enqueue
like_queues = refl

unlike_removes : (unlike memory_platform without_queues (some sample_like) one_like).0 ≡ ok tt
unfolding unlike is_exist is_liked ◌>>=◌ time_now update_popularity_cache enqueue unlike_body
unlike_removes = refl

like-LikesCounted_example :
    LikesCounted (state_of (like memory_platform without_queues (some sample_like) one_video).1)
    × LikesCounted (state_of (unlike memory_platform without_queues (some sample_like) one_video).1)
like-LikesCounted_example =
    like-LikesCounted memory_platform without_queues (some sample_like) one_video ((refl, tt), tt)

like_recorded_example :
    IsStored true sample_like
      (state_of (like memory_platform with_queues (some sample_like) one_video).1)
    ⊎ IsQueued
        (lit "like")
        sample_like
        (state_of (like memory_platform with_queues (some sample_like) one_video).1)
like_recorded_example = like_recorded memory_platform with_queues sample_like one_video like_queues
