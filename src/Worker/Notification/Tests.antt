-- ===== src/Worker/Notification/Tests.antt =====
-- A like on somebody else's video, in memory.
use go_video.Prelude.{◌≡◌, refl, Option, none, some, [], ok, ◌>>=◌}
use go_video.Prelude.Text.{text_eq, Text, lit}
use go_video.Entities.{Notification, LikeEvent, CommentEvent, SocialEvent}
use go_video.Simulation.World.{state_of}
use go_video.Simulation.Cache.{memory_cache, cached_platform}
use go_video.Simulation.Samples.{one_video}
use go_video.Services.Platform.{time_now}
use go_video.Worker.Notification.{build_notification, process}
use go_video.Worker.Notification.Notices.{IsDelivered, process_records}
use go_video.Worker.Notification.Notices.Built.{IsBuilt}

abbrev like_event : LikeEvent
like_event = record {
  event_id = lit "4f";
  action = lit "like";
  user_id = 2;
  video_id = 7;
  occurred_at = 6000;
}

abbrev decode_like : Text → Option LikeEvent
decode_like t = some like_event

abbrev decode_comment : Text → Option CommentEvent
decode_comment t = none

abbrev decode_social : Text → Option SocialEvent
decode_social t = none

processes :
    (process cached_platform decode_like decode_comment decode_social
      (some memory_cache)
      none
      (lit "like.like")
      (lit "e")
      one_video).0
    ≡ ok tt
unfolding process ◌>>=◌ build_notification text_eq time_now
processes = refl

process_records_example :
    (o : Option Notification) × ((build_notification cached_platform decode_like decode_comment
        decode_social
        (some memory_cache)
        none
        (lit "like.like")
        (lit "e")
        one_video).0
      ≡ ok o)
    × IsBuilt (lit "like.like") o
    × IsDelivered o []
        (state_of
          (process cached_platform decode_like decode_comment decode_social
            (some memory_cache)
            none
            (lit "like.like")
            (lit "e")
            one_video).1).notifications
process_records_example =
    process_records cached_platform decode_like decode_comment decode_social (some memory_cache)
      none (lit "like.like") (lit "e") one_video (λ push u n kept e. absurd (cc e)) processes
