-- ===== src/Api/Feed/Tests.antt =====
-- Pages of three videos.
use go_video.Prelude.{
  Bool-cases, inl, inr, sym, ap, ◌∙◌, ==_iff, ℕ, ◌≡◌, refl, Option, none, some, [], ◌∷◌, map, keep,
  arith, ◌==◌, if◌then◌else◌,
}
use go_video.Prelude.Int.{pos}
use go_video.Entities.{Video}
use go_video.Simulation.Samples.{sample_video}
use go_video.Api.Feed.{build_ordered_result, after_likes, cursor_of, after_popularity}
use go_video.Api.Feed.Cursor.{likes_cursor_resumes, popularity_cursor_resumes}
use go_video.Api.Feed.Order.{build_ordered_result_ids}

abbrev second : Video
second = record sample_video { id = 5; likes_count = pos 0; popularity = pos 0 }

abbrev first : Video
first = record sample_video { id = 9; likes_count = pos 3; popularity = pos 2 }

abbrev found : ℕ → Option Video
found id = if id == 7 then some sample_video else none

abbrev id_or_zero : Option Video → ℕ
id_or_zero none = 0
id_or_zero (some v) = v.id

found_keyed : (id : ℕ) (v : Video) → found id ≡ some v → v.id ≡ id
found_keyed id v h = elim (Bool-cases (id == 7)) [
  | inl e ↦ sym (ap id_or_zero (rw e at h)) ∙ sym ((==_iff id 7).0 e)
  | inr e ↦ absurd (cc (rw e at h))
]

likes_cursor_resumes_example :
    keep (after_likes (cursor_of (first ∷ sample_video ∷ []))) (first ∷ sample_video ∷ second ∷ [])
    ≡ second ∷ []
likes_cursor_resumes_example =
    likes_cursor_resumes (first ∷ []) (second ∷ []) sample_video
      ((refl, (refl, tt)), ((refl, tt), (tt, tt))) ((refl, (refl, tt)), ((refl, tt), (tt, tt)))

popularity_cursor_resumes_example :
    keep (after_popularity (pos 0) 5000 7) (first ∷ sample_video ∷ second ∷ []) ≡ second ∷ []
popularity_cursor_resumes_example =
    popularity_cursor_resumes (first ∷ []) (second ∷ []) sample_video (λ e. ground arith)
      (λ e. ground arith) ((refl, (refl, tt)), ((refl, tt), (tt, tt)))
      ((refl, (refl, tt)), ((refl, tt), (tt, tt)))

build_ordered_result_ids_example :
    map (λ (v : Video). v.id) (build_ordered_result (7 ∷ 8 ∷ 7 ∷ []) found) ≡ 7 ∷ 7 ∷ []
build_ordered_result_ids_example = build_ordered_result_ids (7 ∷ 8 ∷ 7 ∷ []) found found_keyed
