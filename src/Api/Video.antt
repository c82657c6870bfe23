-- ===== src/Api/Video.antt =====
-- internal/api/video: repo.go, the queries on the videos table, and popularity_cache.go.
pub mod Facts
pub mod Tags
pub mod Service
use go_video.Prelude.{
  Option, ℕ, ◌*◌, ◌/◌, Bool, true, false, ◌||◌, none, some, List, record_not_found, Result, ok, err,
  Act, pure, raise, attempt, ◌>>=◌, ◌>>◌, ◌==◌, leb, if◌then◌else◌,
}
use go_video.Prelude.Int.{ℤ, ◌+ℤ◌, greatest_zero}
use go_video.Services.Redis.{video_detail, hot_minute}
use go_video.Services.Platform.{Platform, time_now}
use go_video.Entities.{Video}
use go_video.Entities.Schemas.{Cache}
use go_video.Middleware.Rabbitmq.{is_zero}

module _ {W : Type 0} (p : Platform W) where
  -- ORDER BY create_time desc LIMIT 200
  abbrev pub list_by_author_id : ℕ → Act W (List Video)
  list_by_author_id author_id =
      p.videos.find_ordered (λ v. v.author_id == author_id) (λ v u. leb u.create_time v.create_time)
        200

  abbrev pub find_by_id : ℕ → Act W Video
  find_by_id id = p.videos.first (λ v. v.id == id)

  existence : Result Video → Act W Bool
  existence (ok v) = pure true
  existence (err record_not_found) = pure false
  existence (err e) = raise e

  unfoldable pub is_exist : ℕ → Act W Bool
  unfolding existence
  is_exist id = do found ← attempt (p.videos.first (λ v. v.id == id)); existence found

  unfoldable pub change_likes_count : ℕ → ℤ → Act W (Unit {0})
  change_likes_count id change = do
    p.videos.update (λ v. v.id == id)
        (λ v. record v { likes_count = greatest_zero (v.likes_count +ℤ change) })
    pure tt

  unfoldable pub change_popularity : ℕ → ℤ → Act W (Unit {0})
  change_popularity id change = do
    p.videos.update (λ v. v.id == id)
        (λ v. record v { popularity = greatest_zero (v.popularity +ℤ change) })
    pure tt

  abbrev pub count_by_author_id : ℕ → Act W ℕ
  count_by_author_id author_id = p.videos.count_rows (λ v. v.author_id == author_id)

  -- time.Now().UTC().Truncate(time.Minute), as a number of minutes
  abbrev pub minute_of : ℕ → ℕ
  minute_of t = t / 60000

  -- SELECT COALESCE(SUM(likes_count), 0)
  abbrev pub total_likes_by_author_id : ℕ → Act W ℤ
  total_likes_by_author_id author_id =
      p.videos.sum_rows (λ v. v.author_id == author_id) (λ v. v.likes_count)

  update_cache : Cache p.view → ℕ → ℤ → Act W (Unit {0})
  update_cache cache id change = do
    attempt (cache.del (video_detail id))
    now ← time_now p
    attempt (cache.zincrby (hot_minute (minute_of now)) id change)
    attempt (cache.expire (hot_minute (minute_of now)) (120 * 60000))
    pure tt

  -- Every error of redis is dropped; the cache may be nil.
  change_cached : Option (Cache p.view) → ℕ → ℤ → Act W (Unit {0})
  unfolding update_cache
  change_cached none id change = pure tt
  change_cached (some cache) id change =
      if id == 0 || is_zero change then pure tt else update_cache cache id change

  unfoldable pub update_popularity_cache : ℕ → ℤ → Act W (Unit {0})
  unfolding change_cached
  update_popularity_cache = change_cached p.redis
