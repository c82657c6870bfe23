-- ===== src/Api/Video/Service.antt =====
-- internal/api/video/service.go. `cache` is `p.redis`; json.Marshal and json.Unmarshal of a video,
-- singleflight, and the wait for a timer or the end of the request are parameters.
pub mod Publication
pub mod Detail
pub mod Entries
mod Tests
use go_video.Prelude.{
  ℕ, zero, suc, ◌==◌, Bool, true, false, Option, none, some, List, [], ◌∷◌, ◌++◌, Result, ok, err,
  Error, message, redis_nil, Act, pure, raise, of_result, attempt, ◌>>=◌, ◌>>◌, if◌then◌else◌,
}
use go_video.Prelude.Text.{Text, lit, text_eq, is_empty, trim_space}
use go_video.Services.Redis.{video_detail, video_detail_lock}
use go_video.Services.Platform.{Platform, time_now}
use go_video.Entities.{Video, OutboxMsg, pending, Tag, VideoTag}
use go_video.Entities.Schemas.{Cache}
use go_video.Middleware.Lock.{lock, unlock}
use go_video.Api.Video.{find_by_id}
use go_video.Api.Video.Tags.{extract_tags}

-- autoCreateTime
abbrev pub created_at : ℕ → ℕ → ℕ
created_at now t = if t == 0 then now else t

abbrev pub trimmed : Video → Video
trimmed v = record v {
  title = trim_space v.title;
  play_url = trim_space v.play_url;
  cover_url = trim_space v.cover_url;
}

abbrev pub tags_of : (Text → ℕ) → Video → List Text
tags_of word v = extract_tags word (v.title ++ (lit " " ++ v.description))

module _ {W : Type 0} (p : Platform W) where
  -- The loop over the tags.
  pub link_tags : ℕ → List Text → Act W (Unit {0})
  link_tags video_id [] = pure tt
  link_tags video_id (name ∷ names) = do
    t ← p.tags.first_or_create (λ r. text_eq r.name name) (record { id = 0; name = name })
    p.video_tags.create (record { id = 0; video_id = video_id; tag_id = t.id })
    link_tags video_id names

  -- The body of the transaction in Publish.
  pub publish_body : (Text → ℕ) → Video → Act W (Unit {0})
  publish_body word v = do
    now ← time_now p
    video_id ← p.videos.create (record v { create_time = created_at now v.create_time })
    updated ← time_now p
    p.outbox.create (record {
      id = 0;
      video_id = video_id;
      event_type = lit "video_published";
      create_time = created_at updated (created_at now v.create_time);
      status = pending;
      retry_count = 0;
      last_error = [];
      updated_at = updated;
      published_at = none;
    })
    link_tags video_id (tags_of word v)

  publish_trimmed : (Text → ℕ) → Video → Act W (Unit {0})
  publish_trimmed word v =
      if is_empty v.title
      then raise (message "title is required")
      else if is_empty v.play_url
      then raise (message "play_url is required")
      else if is_empty v.cover_url
      then raise (message "cover url is required")
      else p.transactions.transaction (publish_body word v)

  -- VideoService.Publish
  unfoldable pub publish : (Text → ℕ) → Option Video → Act W (Unit {0})
  unfolding publish_trimmed
  publish word none = raise (message "video is nil")
  publish word (some v) = publish_trimmed word (trimmed v)

  module _ (decode : Text → Option Video) (encode : Video → Option Text)
      (requests : ℕ → Act W Video → Act W Video) (pause : ℕ → Act W (Unit {0})) where
    decoded : Result Text → Option Video
    decoded (ok bytes) = decode bytes
    decoded (err e) = none

    -- getCacheFunc
    pub get_cache : Cache p.view → ℕ → Act W (Option Video)
    unfolding decoded
    get_cache cache id = do bytes ← attempt (cache.get (video_detail id)); pure (decoded bytes)

    set_bytes : Cache p.view → ℕ → Option Text → Act W (Unit {0})
    set_bytes cache id none = pure tt
    set_bytes cache id (some bytes) = do attempt (cache.set (video_detail id) bytes 300000); pure tt

    -- setCacheFunc
    pub set_cache : Cache p.view → ℕ → Video → Act W (Unit {0})
    unfolding set_bytes
    set_cache cache id v = set_bytes cache id (encode v)

    -- The row, which goes into the cache.
    pub from_table : Cache p.view → ℕ → Act W Video
    from_table cache id = do v ← find_by_id p id; set_cache cache id v; pure v

    pub or_table : Cache p.view → ℕ → Option Video → Act W Video
    or_table cache id (some v) = pure v
    or_table cache id none = from_table cache id

    -- The rounds that are left of the wait for another request's entry.
    pub wait_cached : Cache p.view → ℕ → ℕ → Option Video → Act W (Option Video)
    wait_cached cache id rounds (some v) = pure (some v)
    wait_cached cache id zero none = pure none
    wait_cached cache id (suc rounds) none = do
      pause 20
      found ← get_cache cache id
      wait_cached cache id rounds found

    -- With the lock, which is given back in the end.
    pub rebuild_locked : Cache p.view → ℕ → Text → Act W Video
    unfolding or_table
    rebuild_locked cache id token = do
      answer ← attempt (do found ← get_cache cache id; or_table cache id found)
      attempt (unlock p cache (video_detail_lock id) token)
      of_result answer

    pub by_lock : Cache p.view → ℕ → Result (Text × Bool) → Act W Video
    unfolding or_table
    by_lock cache id (err e) = from_table cache id
    by_lock cache id (ok (token, true)) = rebuild_locked cache id token
    by_lock cache id (ok (token, false)) = do
      found ← wait_cached cache id 5 none
      or_table cache id found

    unless_cached : Cache p.view → ℕ → Option Video → Act W Video
    unfolding by_lock
    unless_cached cache id (some v) = pure v
    unless_cached cache id none = do
      locked ← attempt (lock p cache (video_detail_lock id) 2000)
      by_lock cache id locked

    -- What singleflight runs.
    pub rebuild : Cache p.view → ℕ → Act W Video
    unfolding unless_cached
    rebuild cache id = do found ← get_cache cache id; unless_cached cache id found

    by_bytes : Cache p.view → ℕ → Result Text → Act W Video
    unfolding or_table
    by_bytes cache id (ok bytes) = or_table cache id (decode bytes)
    by_bytes cache id (err redis_nil) = requests id (rebuild cache id)
    by_bytes cache id (err e) = from_table cache id

    detail_cached : Option (Cache p.view) → ℕ → Act W Video
    unfolding by_bytes
    detail_cached none id = find_by_id p id
    detail_cached (some cache) id = do
      bytes ← attempt (cache.get (video_detail id))
      by_bytes cache id bytes

    -- VideoService.GetDetail
    pub get_detail : ℕ → Act W Video
    unfolding detail_cached
    get_detail id = detail_cached p.redis id
