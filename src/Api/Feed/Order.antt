-- ===== src/Api/Feed/Order.antt =====
-- The ordered result and the items of a page.
use go_video.Prelude.{
  ◌∙◌, ℕ, ◌≡◌, refl, ap, Bool, true, false, Option, none, some, List, [], ◌∷◌, map, keep,
  if◌then◌else◌,
}
use go_video.Entities.{Video}
use go_video.Api.Feed.{append_found, build_ordered_result}

abbrev pub is_some : Option Video → Bool
is_some none = false
is_some (some v) = true

append_found_ids :
    (o : Option Video) (id : ℕ) (rest : List Video)
    → ((v : Video) → o ≡ some v → v.id ≡ id)
    → map (λ (v : Video). v.id) (append_found o rest)
      ≡ (if is_some o then id ∷ map (λ (v : Video). v.id) rest else map (λ (v : Video). v.id) rest)
append_found_ids none id rest keyed = refl
append_found_ids (some v) id rest keyed =
    ap (λ i. i ∷ map (λ (u : Video). u.id) rest) (keyed v refl)

-- The result has one video for each id of the request that has one, in the order of the request,
-- repetitions included, if each id is mapped to a video of that id.
pub build_ordered_result_ids :
    (ids : List ℕ) (data_map : ℕ → Option Video)
    → ((id : ℕ) (v : Video) → data_map id ≡ some v → v.id ≡ id)
    → map (λ (v : Video). v.id) (build_ordered_result ids data_map)
      ≡ keep (λ id. is_some (data_map id)) ids
build_ordered_result_ids [] data_map keyed = refl
build_ordered_result_ids (id ∷ ids) data_map keyed =
    append_found_ids (data_map id) id (build_ordered_result ids data_map) (keyed id)
    ∙ ap (λ xs. if is_some (data_map id) then id ∷ xs else xs)
        (build_ordered_result_ids ids data_map keyed)
