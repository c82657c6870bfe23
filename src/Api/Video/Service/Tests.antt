-- ===== src/Api/Video/Service/Tests.antt =====
-- A video that is published and read, in memory.
use go_video.Prelude.{
  List, ap, ℕ, ◌≡◌, ◌==◌, refl, true, false, Option, none, some, [], ◌∷◌, ok, Act, pure, ◌>>=◌,
  if◌then◌else◌, ◌&&◌, ==_iff, Bool, Bool-cases, inl, inr, arith,
}
use mathlib.Core.List.{Memᴰ}
use mathlib.Core.List.Memᴰ.{head, tail, not-nil}
use go_video.Services.Redis.{video_detail}
use go_video.Prelude.Text.{Text, lit, text_eq}
use go_video.Services.Keeps.{Keeps-pure}
use go_video.Entities.{Video}
use go_video.Prelude.Text.{trim_space, text_eq_iff, text_eq_self}
use go_video.Prelude.Int.{ℤ, pos, negsuc}
use go_video.Services.Platform.{time_now}
use go_video.Middleware.Lock.{lock}
use go_video.Api.Video.Tags.{extract_tags}
use go_video.Simulation.World.{World, state_of}
use go_video.Simulation.Services.{empty_state, memory_platform}
use go_video.Simulation.Cache.{memory_cache, cached_platform}
use go_video.Simulation.Samples.{sample_video, one_video}
use go_video.Api.Video.Service.{
  publish, publish_body, link_tags, trimmed, get_detail, rebuild, get_cache, rebuild_locked,
  from_table, set_cache,
}
use go_video.Api.Video.Service.Publication.{IsPublished, publish_complete}
use go_video.Api.Video.Service.Detail.{get_detail_refines}
use go_video.Api.Video.Service.Entries.{IsVersion, IsFresh}

-- One letter is a word.
abbrev ascii_word : Text → ℕ
ascii_word [] = 0
ascii_word (c ∷ cs) = if c == b'a' then 1 else 0

abbrev tagged_video : Video
tagged_video = record sample_video { title = lit " #aa "; description = lit "#a" }

publishes : (publish memory_platform ascii_word (some tagged_video) (empty_state, [])).0 ≡ ok tt
unfolding publish ◌>>=◌ text_eq trim_space publish_body time_now link_tags extract_tags
publishes = refl

publish_complete_example :
    (id : ℕ) × IsPublished ascii_word
      (trimmed tagged_video)
      id
      (state_of (publish memory_platform ascii_word (some tagged_video) (empty_state, [])).1)
publish_complete_example =
    publish_complete memory_platform ascii_word tagged_video (empty_state, []) publishes

abbrev same_count : ℤ → ℤ → Bool
same_count (pos a) (pos b) = a == b
same_count a b = false

same_count_sound : (a b : ℤ) → same_count a b ≡ true → a ≡ b
same_count_sound (pos a) (pos b) e = ap pos ((==_iff a b).0 e)
same_count_sound (pos a) (negsuc b) e = absurd (cc e)
same_count_sound (negsuc a) b e = absurd (cc e)

abbrev is_sample : Video → Bool
is_sample v =
    v.id == 7
    && v.author_id == 1
    && text_eq v.username (lit "ada")
    && text_eq v.title (lit "go")
    && text_eq v.description []
    && text_eq v.play_url (lit "p")
    && text_eq v.cover_url (lit "c")
    && v.create_time == 5000
    && same_count v.likes_count (pos 0)
    && same_count v.popularity (pos 0)

is_sample_sound : (v : Video) → is_sample v ≡ true → sample_video ≡ v
is_sample_sound v e =
    let same_id : v.id ≡ 7 = ground arith in
    let same_author_id : v.author_id ≡ 1 = ground arith in
    let same_username : v.username ≡ lit "ada" =
      (text_eq_iff v.username (lit "ada")).0 (ground arith) in
    let same_title : v.title ≡ lit "go" = (text_eq_iff v.title (lit "go")).0 (ground arith) in
    let same_description : v.description ≡ [] = (text_eq_iff v.description []).0 (ground arith) in
    let same_play_url : v.play_url ≡ lit "p" =
      (text_eq_iff v.play_url (lit "p")).0 (ground arith) in
    let same_cover_url : v.cover_url ≡ lit "c" =
      (text_eq_iff v.cover_url (lit "c")).0 (ground arith) in
    let same_create_time : v.create_time ≡ 5000 = ground arith in
    let same_likes_count : v.likes_count ≡ pos 0 =
      same_count_sound v.likes_count (pos 0) (ground arith) in
    let same_popularity : v.popularity ≡ pos 0 =
      same_count_sound v.popularity (pos 0) (ground arith) in
    cc

-- The one video is encoded as "v".
abbrev encode_sample : Video → Option Text
encode_sample v = if is_sample v then some (lit "v") else none

abbrev decode_sample : Text → Option Video
decode_sample t = if text_eq t (lit "v") then some sample_video else none

sample_round_trip : (v : Video) (t : Text) → encode_sample v ≡ some t → decode_sample t ≡ some v
sample_round_trip v t e = elim (Bool-cases (is_sample v)) [
  | inl same ↦
      let read : lit "v" ≡ t = cc (rw same at e) in
      rw (← read, text_eq_self (lit "v"), is_sample_sound v same) refl
  | inr other ↦ absurd (cc (rw other at e))
]

abbrev at_once : ℕ → Act World Video → Act World Video
at_once id m = m

abbrev no_pause : ℕ → Act World (Unit {0})
no_pause n = pure tt

reads :
    (get_detail cached_platform decode_sample encode_sample at_once no_pause 7 one_video).0
    ≡ ok sample_video
unfolding get_detail ◌>>=◌ rebuild get_cache lock rebuild_locked from_table set_cache text_eq
reads = refl

-- The video before somebody liked it, which an entry may still hold.
abbrev versions : List Video
versions = sample_video ∷ record sample_video { likes_count = pos 1 } ∷ []

get_detail_refines_example :
    IsFresh versions decode_sample (
      state_of
        (get_detail cached_platform decode_sample encode_sample at_once no_pause 7 one_video).1)
    × IsVersion versions 7 sample_video
get_detail_refines_example =
    get_detail_refines cached_platform memory_cache versions decode_sample encode_sample
      sample_round_trip at_once no_pause (λ n. Keeps-pure tt)
      (λ id m w v h done. (w, h, done, λ after. after)) 7 sample_video one_video refl
      (known_rows, nothing_cached) reads
  where
    known_rows : (v : Video) → Memᴰ v (state_of one_video).videos → Memᴰ v versions
    known_rows v (head e) = head e
    known_rows v (tail h) = absurd (not-nil h)

    nothing_cached :
        (id : ℕ) (t : Text) (v : Video)
        → (state_of one_video).strings (video_detail id) ≡ some t
        → decode_sample t ≡ some v
        → IsVersion versions id v
    nothing_cached id t v e = absurd (cc e)
