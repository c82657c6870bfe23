-- ===== src/Worker/Social/Tests.antt =====
-- Runs of the social worker in memory.
use go_video.Prelude.{◌≡◌, refl, true, false, Option, some, [], ok, ◌>>=◌, arith}
use go_video.Prelude.Text.{Text, lit, text_eq}
use go_video.Entities.{SocialEvent}
use go_video.Simulation.World.{state_of}
use go_video.Simulation.Services.{memory_platform}
use go_video.Simulation.Samples.{two_accounts, one_follow}
use go_video.Api.Social.{insert_follow}
use go_video.Api.Social.Facts.{NoSelfFollow, asks_self}
use go_video.Api.Social.Recorded.{IsFollowing}
use go_video.Worker.Social.{follow_of, process, apply_follow}
use go_video.Worker.Social.Effects.{process-NoSelfFollow, process-IsFollowing}

abbrev follow_event : SocialEvent
follow_event = record {
  event_id = lit "4f";
  action = lit "follow";
  follower_id = 2;
  vlogger_id = 3;
  occurred_at = 100000;
}

abbrev decode_follow : Text → Option SocialEvent
decode_follow _ = some follow_event

-- The second delivery of the event.
process_again : (process memory_platform decode_follow [] one_follow).0 ≡ ok tt
unfolding process apply_follow insert_follow text_eq ◌>>=◌
process_again = refl

follow_event_proper : asks_self ([], [], follow_event) ≡ false
unfolding text_eq
follow_event_proper = refl

process-NoSelfFollow_example :
    NoSelfFollow (state_of (process memory_platform decode_follow [] two_accounts).1)
process-NoSelfFollow_example =
    process-NoSelfFollow memory_platform decode_follow [] follow_event two_accounts refl
      follow_event_proper (tt, tt)

process-IsFollowing_example :
    IsFollowing true
      (follow_of follow_event)
      (state_of (process memory_platform decode_follow [] one_follow).1)
process-IsFollowing_example =
    process-IsFollowing memory_platform decode_follow [] follow_event true one_follow refl refl
      (λ e. ground arith) (λ e. ground arith) process_again
