-- ===== src/Api/Feed.antt =====
-- internal/api/feed: repo.go and service.go, the listings that read the videos table, and the parts
-- that the others share.
pub mod Cursor
pub mod Order
mod Tests
use go_video.Prelude.{
  any, flat_map, keep, ℕ, ◌/◌, Bool, true, false, ◌&&◌, ◌||◌, Option, none, some, List, [], ◌∷◌,
  Act, pure, ◌>>=◌, length, ltb, leb, ◌==◌, mem, map, if◌then◌else◌,
}
use go_video.Prelude.Int.{ℤ, ltb_ℤ, equal_ℤ}
use go_video.Prelude.Text.{text_eq, Text}
use go_video.Services.Platform.{Platform}
use go_video.Entities.{Video, Social, Tag, VideoTag, State}
use go_video.Api.Like.{get_batch_liked}

pub record LikesCountCursor : Type 0 where
  pub likes_count : ℤ
  pub id : ℕ

-- ORDER BY likes_count desc, id desc
abbrev pub likes_order : Video → Video → Bool
likes_order v u =
    ltb_ℤ u.likes_count v.likes_count || (equal_ℤ v.likes_count u.likes_count && leb u.id v.id)

-- (likes_count < ?) or (likes_count = ? and id < ?)
abbrev pub after_likes : Option LikesCountCursor → Video → Bool
after_likes none v = true
after_likes (some c) v =
    ltb_ℤ v.likes_count c.likes_count || (equal_ℤ v.likes_count c.likes_count && ltb v.id c.id)

-- ORDER BY popularity desc, create_time desc, id desc
abbrev pub popularity_order : Video → Video → Bool
popularity_order v u =
    ltb_ℤ u.popularity v.popularity
    || (equal_ℤ v.popularity u.popularity
        && (ltb u.create_time v.create_time || (v.create_time == u.create_time && leb u.id v.id)))

-- The WHERE of ListByPopularity; without a time or an id there is none.
abbrev pub after_popularity : ℤ → ℕ → ℕ → Video → Bool
after_popularity popularity time id v =
    if time == 0 || id == 0
    then true
    else ltb_ℤ v.popularity popularity
      || (equal_ℤ v.popularity popularity && ltb v.create_time time)
      || (equal_ℤ v.popularity popularity && v.create_time == time && ltb v.id id)

-- create_time < ?, where the zero time asks for everything
abbrev pub before_time : ℕ → Video → Bool
before_time latest_before v = latest_before == 0 || ltb v.create_time latest_before

pub record FeedVideoItem : Type 0 where
  pub id : ℕ
  pub author_id : ℕ
  pub username : Text
  pub title : Text
  pub description : Text
  pub play_url : Text
  pub cover_url : Text
  pub create_time : ℕ
  pub likes_count : ℤ
  pub is_liked : Bool

-- CreateTime.Unix() counts seconds.
abbrev pub feed_item : (ℕ → Bool) → Video → FeedVideoItem
feed_item liked v = record {
  id = v.id;
  author_id = v.author_id;
  username = v.username;
  title = v.title;
  description = v.description;
  play_url = v.play_url;
  cover_url = v.cover_url;
  create_time = v.create_time / 1000;
  likes_count = v.likes_count;
  is_liked = liked v.id;
}

pub record ListLikesCountResponse : Type 0 where
  pub video_list : List FeedVideoItem
  pub next : Option LikesCountCursor
  pub has_more : Bool

-- The cursor that the last video of a page makes.
abbrev pub cursor_of : List Video → Option LikesCountCursor
cursor_of [] = none
cursor_of (v ∷ []) = some (record { likes_count = v.likes_count; id = v.id })
cursor_of (v ∷ u ∷ vs) = cursor_of (u ∷ vs)

abbrev pub append_found : Option Video → List Video → List Video
append_found none rest = rest
append_found (some v) rest = v ∷ rest

-- The videos of the ids, in the order of the ids; an id without a video is left out.
abbrev pub build_ordered_result : List ℕ → (ℕ → Option Video) → List Video
build_ordered_result [] data_map = []
build_ordered_result (id ∷ ids) data_map =
    append_found (data_map id) (build_ordered_result ids data_map)

-- author_id in (select vlogger_id …), where the account is signed in
abbrev pub follows : ℕ → List Social → ℕ → Bool
follows account_id socials author_id =
    account_id == 0
    || any (λ (s : Social). s.follower_id == account_id && s.vlogger_id == author_id) socials

abbrev pub following_rows : ℕ → ℕ → State → List (ℕ × Video)
following_rows account_id latest_before s =
    map (λ (v : Video). (v.create_time, v))
      (keep (λ v. follows account_id s.socials v.author_id && before_time latest_before v) s.videos)

-- videos join video_tags join tags, where the tag has the name
abbrev pub tagged_rows : Text → State → List (ℕ × Video)
tagged_rows tag_name s =
    flat_map
      (λ (l : VideoTag).
        flat_map
          (λ (t : Tag).
            map (λ (v : Video). (v.create_time, v))
              (keep (λ v. l.video_id == v.id && t.id == l.tag_id && text_eq t.name tag_name)
                s.videos))
          s.tags)
      s.video_tags

module _ {W : Type 0} (p : Platform W) where
  -- FeedRepo.ListLatest
  abbrev pub list_latest_rows : ℕ → ℕ → Act W (List Video)
  list_latest_rows limit latest_before =
      p.videos.find_ordered (before_time latest_before) (λ v u. leb u.create_time v.create_time)
        limit

  -- FeedRepo.GetByID
  abbrev pub get_video : ℕ → Act W Video
  get_video id = p.videos.first (λ v. v.id == id)

  -- FeedRepo.ListLikesCount
  abbrev pub list_likes_count_rows : ℕ → Option LikesCountCursor → Act W (List Video)
  list_likes_count_rows limit cursor = p.videos.find_ordered (after_likes cursor) likes_order limit

  -- FeedRepo.GetByIDs
  abbrev pub get_by_ids : List ℕ → Act W (List Video)
  get_by_ids [] = pure []
  get_by_ids (id ∷ ids) = p.videos.find (λ v. mem v.id (id ∷ ids))

  -- FeedRepo.ListByPopularity
  abbrev pub list_by_popularity_rows : ℕ → ℤ → ℕ → ℕ → Act W (List Video)
  list_by_popularity_rows limit popularity_before time_before id_before =
      p.videos.find_ordered (after_popularity popularity_before time_before id_before)
        popularity_order limit

  -- FeedRepo.ListByFollowing
  abbrev pub list_by_following_rows : ℕ → ℕ → ℕ → Act W (List Video)
  list_by_following_rows limit account_id latest_before =
      p.select_videos (following_rows account_id latest_before) limit

  -- FeedRepo.ListByTag
  abbrev pub list_by_tag_rows : Text → ℕ → Act W (List Video)
  list_by_tag_rows tag_name limit = p.select_videos (tagged_rows tag_name) limit

  abbrev pub build_feed_videos : List Video → ℕ → Act W (List FeedVideoItem)
  build_feed_videos videos account_id = do
    liked ← get_batch_liked p (map (λ (v : Video). v.id) videos) account_id
    pure (map (feed_item liked) videos)

  -- FeedService.ListLikesCount
  abbrev pub list_likes_count : ℕ → Option LikesCountCursor → ℕ → Act W ListLikesCountResponse
  list_likes_count limit cursor account_id = do
    videos ← list_likes_count_rows limit cursor
    items ← build_feed_videos videos account_id
    pure (record { video_list = items; next = cursor_of videos; has_more = length videos == limit })

  -- FeedService.ListByTag
  abbrev pub list_by_tag : Text → ℕ → ℕ → Act W (List FeedVideoItem)
  list_by_tag tag_name limit account_id = do
    videos ← list_by_tag_rows tag_name limit
    build_feed_videos videos account_id
