-- ===== src/Worker/Comment/Tests.antt =====
-- Runs of the comment worker in memory.
use go_video.Prelude.{◌≡◌, refl, true, some, [], ok, any, ◌>>=◌}
use go_video.Prelude.Text.{lit, text_eq, trim_space}
use go_video.Services.Platform.{time_now}
use go_video.Entities.{CommentEvent, Comment}
use go_video.Simulation.World.{state_of}
use go_video.Simulation.Services.{memory_platform}
use go_video.Simulation.Samples.{one_video, one_comment}
use go_video.Api.Video.{is_exist, change_popularity}
use go_video.Api.Comment.{
  create_comment, create_comment_ignore_duplicate, find_comment, delete_comment,
}
use go_video.Worker.Comment.{apply_publish, apply_delete, process}
use go_video.Worker.Comment.Redelivery.{apply_publish_again}

abbrev publish_event : CommentEvent
publish_event = record {
  event_id = lit "4f";
  action = lit "publish";
  comment_id = 0;
  username = lit "ada";
  video_id = 7;
  author_id = 2;
  content = lit " hi";
  occurred_at = 100000;
}

abbrev delete_event : CommentEvent
delete_event = record publish_event { action = lit "delete"; comment_id = 4 }

process_stores : (process memory_platform (λ _. some publish_event) [] one_video).0 ≡ ok tt
unfolding process apply_publish is_exist create_comment create_comment_ignore_duplicate
    change_popularity text_eq trim_space time_now ◌>>=◌
process_stores = refl

process_deletes :
    (state_of (process memory_platform (λ _. some delete_event) [] one_comment).1).comments ≡ []
unfolding process apply_delete find_comment delete_comment text_eq ◌>>=◌
process_deletes = refl

event_is_there :
    any (λ (c : Comment). text_eq publish_event.event_id c.event_id) (state_of one_comment).comments
    ≡ true
unfolding text_eq
event_is_there = refl

apply_publish_again_example :
    state_of (apply_publish memory_platform publish_event one_comment).1 ≡ state_of one_comment
apply_publish_again_example =
    apply_publish_again memory_platform publish_event one_comment event_is_there
