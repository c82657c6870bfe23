-- ===== src/Api/Like.antt =====
-- internal/api/like: repo.go and service.go. A flag of `LikeService` says whether the pointer of
-- that name is set; `cache` is `p.redis`.
pub mod Counted
pub mod Outcomes
pub mod Recorded
pub mod Promises
pub mod Handler
mod Tests
use go_video.Prelude.{
  keep, flat_map, mem, ℕ, ◌≡◌, ◌<◌, Bool, true, false, ◌&&◌, ◌||◌, not, Option, none, some, List,
  [], ◌∷◌, Error, message, is_ok, is_dup_key, record_not_found, Result, ok, err, Act, pure, raise,
  attempt, ◌>>=◌, ◌>>◌, ltb, ◌==◌, any, map, if◌then◌else◌,
}
use go_video.Prelude.Int.{ℤ, pos, negsuc, ◌+ℤ◌, ltb_ℤ}
use go_video.Services.Platform.{Platform, time_now}
use go_video.Entities.{Like, Video, State}
use go_video.Middleware.Rabbitmq.{mq_like, mq_unlike, mq_update_popularity}
use go_video.Api.Video.{is_exist, update_popularity_cache}

-- The likes of one user for one video.
abbrev pub is_pair : ℕ → ℕ → Like → Bool
is_pair video_id account_id l = l.video_id == video_id && l.account_id == account_id

-- The rows of `videos join likes on likes.video_id = videos.id` whose like is the account's.
abbrev pub liked_rows : ℕ → State → List (ℕ × Video)
liked_rows account_id s =
    flat_map
      (λ (l : Like).
        map (λ (v : Video). (l.created_at, v))
          (keep (λ v. l.video_id == v.id && l.account_id == account_id) s.videos))
      s.likes

pub record LikeService : Type 0 where
  pub video_repo : Bool
  pub like_mq : Bool
  pub popularity_mq : Bool

module _ {W : Type 0} (p : Platform W) where
  -- LikeRepo.IsLiked
  unfoldable pub is_liked : ℕ → ℕ → Act W Bool
  is_liked video_id account_id = do
    n ← p.likes.count_rows (is_pair video_id account_id)
    pure (ltb 0 n)

  -- The answer is a map from video ids; an id that is not in it reads as false.
  abbrev pub get_batch_liked : List ℕ → ℕ → Act W (ℕ → Bool)
  get_batch_liked [] account_id = pure (λ _. false)
  get_batch_liked (v ∷ vs) account_id = if account_id == 0 then pure (λ _. false) else (do
    likes ← p.likes.find (λ l. mem l.video_id (v ∷ vs) && l.account_id == account_id)
    pure (λ id. any (λ (l : Like). l.video_id == id) likes))

  -- LikeRepo.ListLikedVideos: the join of videos and likes, by the time of the like.
  abbrev pub list_liked_videos : ℕ → Act W (List Video)
  list_liked_videos account_id = p.select_videos (liked_rows account_id) 200

  created : Result ℕ → Act W Bool
  created (ok _) = pure true
  created (err e) = if is_dup_key e then pure false else raise e

  unfoldable pub like_ignore_duplicate : Like → Act W Bool
  unfolding created
  like_ignore_duplicate l =
      if l.video_id == 0 || l.account_id == 0
      then pure false
      else (do result ← attempt (p.likes.create l); created result)

  unfoldable pub delete_by_video_and_account : ℕ → ℕ → Act W Bool
  delete_by_video_and_account video_id account_id =
      if video_id == 0 || account_id == 0
      then pure false
      else (do n ← p.likes.delete (is_pair video_id account_id); pure (ltb 0 n))

  -- Whether a message went out: a producer that is set and did not fail.
  unfoldable pub enqueue : Bool → Act W (Unit {0}) → Act W Bool
  enqueue false send = pure false
  enqueue true send = do result ← attempt send; pure (is_ok result)

  -- `if s.videoRepo != nil { … }`
  pub check_video : Bool → ℕ → Act W (Unit {0})
  check_video false video_id = pure tt
  check_video true video_id = do
    exists ← is_exist p video_id
    if exists then pure tt else raise (message "video not found")

  unfoldable pub video_found : Result Video → Act W (Unit {0})
  video_found (ok _) = pure tt
  video_found (err record_not_found) = raise (message "video not found")
  video_found (err e) = raise e

  like_created : Result ℕ → Act W (Unit {0})
  like_created (ok _) = pure tt
  like_created (err e) =
      if is_dup_key e then raise (message "user has liked this video") else raise e

  -- The body of the transaction in Like.
  pub like_body : Like → Act W (Unit {0})
  unfolding video_found like_created
  like_body l = do
    found ← attempt (p.videos.first (λ v. v.id == l.video_id))
    video_found found
    result ← attempt (p.likes.create l)
    like_created result
    p.videos.update (λ v. v.id == l.video_id)
        (λ v. record v { likes_count = v.likes_count +ℤ pos 1 })
    p.videos.update (λ v. v.id == l.video_id) (λ v. record v { popularity = v.popularity +ℤ pos 1 })
    pure tt

  -- The body of the transaction in Unlike.
  pub unlike_body : Like → Act W (Unit {0})
  unlike_body l = do
    deleted ← p.likes.delete (is_pair l.video_id l.account_id)
    if deleted == 0 then raise (message "user has not liked this video") else do
      p.videos.update (λ v. v.id == l.video_id && ltb_ℤ (pos 0) v.likes_count)
          (λ v. record v { likes_count = v.likes_count +ℤ negsuc 0 })
      p.videos.update (λ v. v.id == l.video_id && ltb_ℤ (pos 0) v.popularity)
          (λ v. record v { popularity = v.popularity +ℤ negsuc 0 })
      pure tt

  -- `if !mysqlEnqueued { transaction }`, then `if !redisEnqueued { UpdatePopularityCache }`
  pub fallback : Bool → Bool → Act W (Unit {0}) → ℕ → ℤ → Act W (Unit {0})
  fallback mysql_enqueued redis_enqueued body video_id change = do
    if mysql_enqueued then pure tt else p.transactions.transaction body
    if redis_enqueued then pure tt else update_popularity_cache p video_id change

  pub like_now : LikeService → Like → Act W (Unit {0})
  unfolding fallback
  like_now s l = do
    now ← time_now p
    mysql_enqueued ← enqueue s.like_mq (mq_like p l.account_id l.video_id)
    redis_enqueued ← enqueue s.popularity_mq (mq_update_popularity p l.video_id (pos 1))
    if mysql_enqueued && redis_enqueued
        then pure tt
        else fallback mysql_enqueued redis_enqueued (like_body (record l { created_at = now }))
            l.video_id (pos 1)

  -- LikeService.Like
  pub like : LikeService → Option Like → Act W (Unit {0})
  unfolding check_video like_now
  like s none = raise (message "like is nil")
  like s (some l) =
      if l.video_id == 0 || l.account_id == 0
      then raise (message "video_id and account_id are required")
      else (do
        check_video s.video_repo l.video_id
        liked ← is_liked l.video_id l.account_id
        if liked then raise (message "user has liked this video") else like_now s l)

  pub unlike_now : LikeService → Like → Act W (Unit {0})
  unfolding fallback
  unlike_now s l = do
    mysql_enqueued ← enqueue s.like_mq (mq_unlike p l.account_id l.video_id)
    redis_enqueued ← enqueue s.popularity_mq (mq_update_popularity p l.video_id (negsuc 0))
    if mysql_enqueued && redis_enqueued
        then pure tt
        else fallback mysql_enqueued redis_enqueued (unlike_body l) l.video_id (negsuc 0)

  -- LikeService.Unlike
  pub unlike : LikeService → Option Like → Act W (Unit {0})
  unfolding check_video unlike_now
  unlike s none = raise (message "like is nil")
  unlike s (some l) =
      if l.video_id == 0 || l.account_id == 0
      then raise (message "video_id and account_id are required")
      else (do
        check_video s.video_repo l.video_id
        liked ← is_liked l.video_id l.account_id
        if liked then unlike_now s l else raise (message "user has not liked this video"))
