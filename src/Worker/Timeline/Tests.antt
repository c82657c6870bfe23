-- ===== src/Worker/Timeline/Tests.antt =====
-- A video that is put on the time line in memory.
use go_video.Prelude.{◌≡◌, ◌⊎◌, refl, Option, some, [], ◌∷◌, ok, err, Error, ◌>>=◌}
use go_video.Prelude.Int.{negsuc}
use go_video.Prelude.Text.{Text, lit}
use go_video.Entities.{TimelineEvent}
use go_video.Simulation.World.{World, state_of}
use go_video.Simulation.Services.{empty_state}
use go_video.Simulation.Cache.{memory_cache, cached_platform}
use go_video.Worker.Timeline.{process}
use go_video.Worker.Timeline.Bounded.{IsTrimmed, process_trims}

abbrev new_video : TimelineEvent
new_video = record {
  event_id = lit "4f";
  action = lit "create_timeline";
  video_id = 7;
  create_time = 5000;
  occurred_at = 6000;
}

abbrev decode_new : Text → Option TimelineEvent
decode_new t = some new_video

-- A newer video is there.
abbrev one_newer : World
one_newer = (record empty_state { timeline = (6000, 6) ∷ [] }, [])

processes : (process cached_platform memory_cache decode_new (lit "e") one_newer).0 ≡ ok tt
unfolding process ◌>>=◌
processes = refl

process_trims_example :
    IsTrimmed new_video
      ((6000, 6) ∷ [])
      (state_of (process cached_platform memory_cache decode_new (lit "e") one_newer).1).timeline
    ⊎ ((e : Error) × ((memory_cache.zremrangebyrank 0
            (negsuc 1000)
            (memory_cache.zadd (5000, 7) one_newer).1).0
          ≡ err e))
process_trims_example =
    process_trims cached_platform memory_cache decode_new (lit "e") new_video one_newer refl refl
      refl processes
