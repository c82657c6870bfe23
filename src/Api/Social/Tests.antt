-- ===== src/Api/Social/Tests.antt =====
-- Runs of SocialService in memory.
use go_video.Prelude.{◌≡◌, ◌⊎◌, refl, true, false, ok, ◌>>=◌}
use go_video.Prelude.Text.{lit}
use go_video.Services.Platform.{time_now}
use go_video.Middleware.Rabbitmq.{mq_follow, publish_json, rand_hex}
use go_video.Simulation.World.{state_of}
use go_video.Simulation.Services.{memory_platform}
use go_video.Simulation.Samples.{two_accounts, one_follow, sample_follow}
use go_video.Api.Social.{follow, unfollow, is_followed, insert_follow, delete_follow}
use go_video.Api.Social.Facts.{NoSelfFollow, follow-NoSelfFollow}
use go_video.Api.Social.Recorded.{IsFollowing, IsAsked, follow_recorded}

follow_stores :
    (state_of (follow memory_platform false sample_follow two_accounts).1).socials
    ≡ (state_of one_follow).socials
unfolding follow is_followed insert_follow ◌>>=◌
follow_stores = refl

follow_queues : (follow memory_platform true sample_follow two_accounts).0 ≡ ok tt
unfolding follow is_followed mq_follow publish_json rand_hex time_now ◌>>=◌
follow_queues = refl

unfollow_removes : (unfollow memory_platform false sample_follow one_follow).0 ≡ ok tt
unfolding unfollow is_followed delete_follow ◌>>=◌
unfollow_removes = refl

follow-NoSelfFollow_example :
    NoSelfFollow (state_of (follow memory_platform false sample_follow one_follow).1)
    × NoSelfFollow (state_of (unfollow memory_platform false sample_follow one_follow).1)
follow-NoSelfFollow_example =
    follow-NoSelfFollow memory_platform false sample_follow one_follow ((refl, tt), tt)

follow_recorded_example :
    IsFollowing true sample_follow
      (state_of (follow memory_platform true sample_follow two_accounts).1)
    ⊎ IsAsked
        (lit "follow")
        sample_follow
        (state_of (follow memory_platform true sample_follow two_accounts).1)
follow_recorded_example =
    follow_recorded memory_platform sample_follow true two_accounts follow_queues
