-- ===== src/Worker/Timeline.antt =====
-- internal/worker/timeline_worker.go. `decode` is json.Unmarshal into a TimelineEvent; the worker
-- runs only with redis set.
pub mod Bounded
mod Tests
use go_video.Prelude.{
  ◌||◌, ◌==◌, Option, none, some, Act, pure, attempt, ◌>>=◌, ◌>>◌, if◌then◌else◌,
}
use go_video.Prelude.Int.{negsuc}
use go_video.Prelude.Text.{Text}
use go_video.Services.Platform.{Platform}
use go_video.Entities.{TimelineEvent}
use go_video.Entities.Schemas.{Cache}

module _ {W : Type 0} (p : Platform W) (cache : Cache p.view) where
  -- -1001 keeps the newest thousand.
  pub consume : Option TimelineEvent → Act W (Unit {0})
  consume none = pure tt
  consume (some evt) = if evt.video_id == 0 || evt.create_time == 0 then pure tt else do
    cache.zadd (evt.create_time, evt.video_id)
    attempt (cache.zremrangebyrank 0 (negsuc 1000))
    pure tt

  pub process : (Text → Option TimelineEvent) → Text → Act W (Unit {0})
  unfolding consume
  process decode body = consume (decode body)
