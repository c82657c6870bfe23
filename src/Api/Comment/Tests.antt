-- ===== src/Api/Comment/Tests.antt =====
-- Runs of CommentService in memory.
use go_video.Prelude.{◌≡◌, ◌⊎◌, refl, false, some, [], ok, is_ok, ◌>>=◌}
use go_video.Prelude.Text.{trim_space}
use go_video.Services.Platform.{time_now}
use go_video.Middleware.Rabbitmq.{rand_hex}
use go_video.Simulation.World.{state_of}
use go_video.Simulation.Services.{memory_platform}
use go_video.Simulation.Samples.{one_video, one_comment, sample_comment}
use go_video.Api.Video.{is_exist, update_popularity_cache}
use go_video.Api.Like.{enqueue, video_found}
use go_video.Api.Comment.{
  CommentService, publish, publish_body, delete, trimmed, create_comment, find_comment,
  delete_comment,
}
use go_video.Api.Comment.Author.{delete_refused}
use go_video.Api.Comment.Recorded.{IsPosted, IsPostAsked}
use go_video.Api.Comment.Promises.{publish_recorded}

abbrev without_queues : CommentService
without_queues = record { comment_mq = false; popularity_mq = false }

publish_stores : (publish memory_platform without_queues (some sample_comment) one_video).0 ≡ ok tt
unfolding publish publish_body is_exist create_comment update_popularity_cache enqueue video_found
    time_now rand_hex trim_space ◌>>=◌
publish_stores = refl

delete_removes : (state_of (delete memory_platform without_queues 4 2 one_comment).1).comments ≡ []
unfolding delete find_comment delete_comment enqueue ◌>>=◌
delete_removes = refl

publish_recorded_example :
    IsPosted
      (trimmed sample_comment)
      (state_of (publish memory_platform without_queues (some sample_comment) one_video).1)
    ⊎ IsPostAsked
        (trimmed sample_comment)
        (state_of (publish memory_platform without_queues (some sample_comment) one_video).1)
publish_recorded_example =
    publish_recorded memory_platform without_queues sample_comment one_video publish_stores

delete_refused_example :
    (is_ok (delete memory_platform without_queues 4 9 one_comment).0 ≡ false)
    × (state_of (delete memory_platform without_queues 4 9 one_comment).1 ≡ state_of one_comment)
delete_refused_example = delete_refused memory_platform without_queues 4 9 one_comment refl
