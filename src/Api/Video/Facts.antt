-- ===== src/Api/Video/Facts.antt =====
-- What the reads of a video and UpdatePopularityCache change: entries of redis, and no table.
use go_video.Prelude.{
  ◌==◌, Option, ℕ, sym, subst, none, some, Result, ok, err, record_not_found, true, false,
}
use go_video.Services.Redis.{Key}
use go_video.Entities.Schemas.{Cache}
use go_video.Prelude.Int.{ℤ, ◌+ℤ◌, greatest_zero}
use go_video.Services.Keeps.{
  Keeps-raise, Keeps-time_now, Keeps-pure, Keeps-first, Keeps, keeps_rules, Keeps-performs,
}
use go_video.Services.Ensures.{Ensures, ensures_bind, ensures_pure}
use go_video.Services.Platform.{Platform}
use go_video.Entities.{Video, State}
use go_video.Middleware.Rabbitmq.Facts.{IsCacheFree}
use go_video.Api.Video.{
  change_likes_count, change_popularity, change_cached, update_popularity_cache, update_cache,
  existence, is_exist,
}

module _ {W : Type 0} (p : Platform W) (P : State → Type 0) (fact : IsCacheFree P) where
  module _ (cache : Cache p.view) where
    Keeps-del : (k : Key) → Keeps p.view P (cache.del k)
    Keeps-del k =
        Keeps-performs _ _ (cache.del_lem k)
          (λ w a s h post. subst P (sym post) (fact.strings_set _ _ h))

    Keeps-zincrby : (k : Key) (m : ℕ) (d : ℤ) → Keeps p.view P (cache.zincrby k m d)
    Keeps-zincrby k m d =
        Keeps-performs _ _ (cache.zincrby_lem k m d)
          (λ w a s h post. subst P (sym post) (fact.sets_set _ _ h))

    Keeps-expire : (k : Key) (ttl : ℕ) → Keeps p.view P (cache.expire k ttl)
    Keeps-expire k ttl =
        Keeps-performs _ _ (cache.expire_lem k ttl) (λ w a s h post. subst P (sym post) h)

  Keeps-change_cached :
      (r : Option (Cache p.view)) (video : ℕ) (change : ℤ)
      → Keeps p.view P (change_cached p r video change)
  unfolding change_cached update_cache
  Keeps-change_cached none video change = Keeps-pure tt
  Keeps-change_cached (some cache) video change =
      search (keeps_rules, Keeps-time_now, Keeps-del cache, Keeps-zincrby cache, Keeps-expire cache)
        depth 9

  pub Keeps-update_popularity_cache :
      (video : ℕ) (change : ℤ) → Keeps p.view P (update_popularity_cache p video change)
  unfolding update_popularity_cache
  Keeps-update_popularity_cache = Keeps-change_cached p.redis

module _ {W : Type 0} {P : State → Type 0} (p : Platform W) where
  Keeps-existence : (r : Result Video) → Keeps p.view P (existence p r)
  unfolding existence
  Keeps-existence (ok v) = Keeps-pure true
  Keeps-existence (err record_not_found) = Keeps-pure false
  Keeps-existence (err e) = Keeps-raise e

  pub Keeps-is_exist : (id : ℕ) → Keeps p.view P (is_exist p id)
  unfolding is_exist
  Keeps-is_exist id = search (keeps_rules, Keeps-existence, Keeps-first p.videos)

module _ {W : Type 0} (p : Platform W) {P Q : State → Type 0} (id : ℕ) (change : ℤ) where
  -- The two counters of a video are changed by one UPDATE each.
  pub ensures_change_likes_count :
      Ensures p.view P
        (p.videos.update
          (λ v. v.id == id)
          (λ v. record v { likes_count = greatest_zero (v.likes_count +ℤ change) }))
        (λ _. Q)
      → Ensures p.view P (change_likes_count p id change) (λ _. Q)
  unfolding change_likes_count
  ensures_change_likes_count h = ensures_bind (λ _. Q) _ _ h (λ _. ensures_pure tt (λ s x. x))

  pub ensures_change_popularity :
      Ensures p.view P
        (p.videos.update
          (λ v. v.id == id)
          (λ v. record v { popularity = greatest_zero (v.popularity +ℤ change) }))
        (λ _. Q)
      → Ensures p.view P (change_popularity p id change) (λ _. Q)
  unfolding change_popularity
  ensures_change_popularity h = ensures_bind (λ _. Q) _ _ h (λ _. ensures_pure tt (λ s x. x))
