-- ===== src/Api/Feed/Cursor.antt =====
-- A page that starts from the cursor of the last video begins where that video's page ended.
use go_video.Prelude.{
  ap, ◌≡◌, ◌≢◌, refl, Bool, true, false, some, List, [], ◌∷◌, ◌++◌, All, keep, arith, ◌==◌,
}
use go_video.Services.Sql.{Ordered}
use go_video.Entities.{Video}
use go_video.Api.Feed.{
  LikesCountCursor, likes_order, after_likes, cursor_of, popularity_order, after_popularity,
}

-- No two videos have the same id.
abbrev pub DistinctIds : List Video → Type 0
DistinctIds [] = Unit
DistinctIds (v ∷ vs) = All (λ u. (u.id == v.id) ≡ false) vs × DistinctIds vs

abbrev pub cursor_at : Video → LikesCountCursor
cursor_at l = record { likes_count = l.likes_count; id = l.id }

cursor_of-append :
    (front : List Video) (l : Video) → cursor_of (front ++ l ∷ []) ≡ some (cursor_at l)
cursor_of-append [] l = refl
cursor_of-append (v ∷ []) l = refl
cursor_of-append (v ∷ u ∷ front) l = cursor_of-append (u ∷ front) l

All-middle :
    (P : Video → Type 0) (front rest : List Video) (l : Video) → All P (front ++ l ∷ rest) → P l
All-middle P [] rest l h = h.0
All-middle P (v ∷ front) rest l h = All-middle P front rest l h.1

-- An order, and the test that picks what comes after one video in it.
module _ (le : Video → Video → Bool) (after : Video → Bool) (l : Video)
    (skips : (v : Video) → le v l ≡ true → after v ≡ false)
    (goes_on : (v : Video) → le l v ≡ true → (v.id == l.id) ≡ false → after v ≡ true)
    (itself : after l ≡ false) where
  follows_whole :
      (rest : List Video)
      → All (λ v. le l v ≡ true) rest
      → All (λ v. (v.id == l.id) ≡ false) rest
      → keep after rest ≡ rest
  follows_whole [] h d = refl
  follows_whole (v ∷ rest) h d =
      rw (goes_on v h.0 d.0) (ap (λ vs. v ∷ vs) (follows_whole rest h.1 d.1))

  resumes :
      (front rest : List Video)
      → Ordered le (front ++ l ∷ rest)
      → DistinctIds (front ++ l ∷ rest)
      → keep after (front ++ l ∷ rest) ≡ rest
  resumes [] rest ordered distinct = rw itself (follows_whole rest ordered.0 distinct.0)
  resumes (v ∷ front) rest ordered distinct =
      rw (skips v (All-middle (λ u. le v u ≡ true) front rest l ordered.0))
        (resumes front rest ordered.1 distinct.1)

-- ListLikesCount: the rows that the cursor of a page picks are those that follow the page's last
-- video in the order of the listing, if the rows have different ids.
pub likes_cursor_resumes :
    (front rest : List Video) (l : Video)
    → Ordered likes_order (front ++ l ∷ rest)
    → DistinctIds (front ++ l ∷ rest)
    → keep (after_likes (cursor_of (front ++ l ∷ []))) (front ++ l ∷ rest) ≡ rest
likes_cursor_resumes front rest l ordered distinct = rw (cursor_of-append front l) (
    resumes likes_order (after_likes (some (cursor_at l))) l (λ v h. ground arith)
      (λ v h d. ground arith) (ground arith) front rest ordered distinct)

-- ListByPopularity: the rows that the popularity, the time and the id of a video pick are those
-- that follow it in the order of the listing, if the rows have different ids and the video has a
-- time and an id.
pub popularity_cursor_resumes :
    (front rest : List Video) (l : Video)
    → l.create_time ≢ 0
    → l.id ≢ 0
    → Ordered popularity_order (front ++ l ∷ rest)
    → DistinctIds (front ++ l ∷ rest)
    → keep (after_popularity l.popularity l.create_time l.id) (front ++ l ∷ rest) ≡ rest
popularity_cursor_resumes front rest l time id ordered distinct =
    resumes popularity_order (after_popularity l.popularity l.create_time l.id) l
      (λ v h. ground arith) (λ v h d. ground arith) (ground arith) front rest ordered distinct
