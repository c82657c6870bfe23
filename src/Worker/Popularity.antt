-- ===== src/Worker/Popularity.antt =====
-- internal/worker/popularity_worker.go. `decode` is json.Unmarshal into a PopularityEvent.
use go_video.Prelude.{◌||◌, Option, none, some, Act, pure, ◌==◌, if◌then◌else◌}
use go_video.Prelude.Text.{Text}
use go_video.Services.Platform.{Platform}
use go_video.Entities.{PopularityEvent}
use go_video.Middleware.Rabbitmq.{is_zero}
use go_video.Api.Video.{update_popularity_cache}

module _ {W : Type 0} (p : Platform W) where
  abbrev consume : Option PopularityEvent → Act W (Unit {0})
  consume none = pure tt
  consume (some evt) =
      if evt.video_id == 0 || is_zero evt.change
      then pure tt
      else update_popularity_cache p evt.video_id evt.change

  abbrev process : (Text → Option PopularityEvent) → Text → Act W (Unit {0})
  process decode body = consume (decode body)
