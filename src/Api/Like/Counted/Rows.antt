-- ===== src/Api/Like/Counted/Rows.antt =====
-- Counting the likes of a video under insertion and removal of a row.
use go_video.Prelude.{
  count-append, ◌-◌, suc, ℕ, ◌+◌, ◌≤◌, ◌≡◌, refl, inl, inr, Bool, Bool-cases, true, false, List, [],
  ◌∷◌, ◌++◌, arith, All, any, count, keep, length, ◌==◌, if◌then◌else◌,
}
use go_video.Prelude.Int.{ℤ, pos}
use go_video.Services.Sql.{update_rows, delete_rows}
use go_video.Entities.{Like, Video, State}
use go_video.Entities.Schemas.{like_schema}
use go_video.Api.Like.{is_pair}

-- No two rows have the same user and video.
abbrev pub Distinct : List Like → Type 0
Distinct [] = Unit
Distinct (l ∷ ls) = (any (like_schema.clash l) ls ≡ false) × Distinct ls

abbrev pub likes_of : ℕ → List Like → ℕ
likes_of id = count (λ l. l.video_id == id)

abbrev pub Counts : List Like → List Video → Type 0
Counts ls = All (λ v. v.likes_count ≡ pos (likes_of v.id ls))

-- The counter of each video is the number of its rows in the likes table, in which a user has at
-- most one row for a video.
abbrev pub LikesCounted : State → Type 0
LikesCounted s = Counts s.likes s.videos × Distinct s.likes

pub Distinct-append :
    (r : Like) (ls : List Like)
    → any (like_schema.clash r) ls ≡ false
    → Distinct ls
    → Distinct (ls ++ r ∷ [])
Distinct-append r [] h d = (refl, tt)
Distinct-append r (l ∷ ls) h d =
    (none_append l r ls (ground arith) d.0, Distinct-append r ls (ground arith) d.1)
  where
    none_append :
        (l r : Like) (ls : List Like)
        → like_schema.clash l r ≡ false
        → any (like_schema.clash l) ls ≡ false
        → any (like_schema.clash l) (ls ++ r ∷ []) ≡ false
    none_append l r [] h e = ground arith
    none_append l r (m ∷ ls) h e = ground (arith, none_append l r ls h)

any-delete_rows :
    (q p : Like → Bool) (ls : List Like) → any q ls ≡ false → any q (delete_rows p ls) ≡ false
any-delete_rows q p [] h = refl
any-delete_rows q p (l ∷ ls) h = ground (arith, any-delete_rows q p ls)

pub Distinct-delete_rows :
    (p : Like → Bool) (ls : List Like) → Distinct ls → Distinct (delete_rows p ls)
Distinct-delete_rows p [] d = tt
Distinct-delete_rows p (l ∷ ls) d = elim (Bool-cases (p l)) [
  | inl e ↦ rw e (Distinct-delete_rows p ls d.1)
  | inr e ↦ rw e (any-delete_rows (like_schema.clash l) p ls d.0, Distinct-delete_rows p ls d.1)
]

none_kept :
    (v a : ℕ) (l : Like) (ls : List Like)
    → is_pair v a l ≡ true
    → any (like_schema.clash l) ls ≡ false
    → length (keep (is_pair v a) ls) ≡ 0
none_kept v a l [] e h = refl
none_kept v a l (m ∷ ls) e h = ground (arith, none_kept v a l ls e)

pub length-keep-le : (v a : ℕ) (ls : List Like) → Distinct ls → length (keep (is_pair v a) ls) ≤ 1
length-keep-le v a [] d = omega arith
length-keep-le v a (l ∷ ls) d = elim (Bool-cases (is_pair v a l)) [
  | inl e ↦ rw e (omega (arith, none_kept v a l ls e d.0))
  | inr e ↦ rw e (length-keep-le v a ls d.1)
]

-- Removing the rows of one user and video takes as many off the count of that video.
likes_of-delete_rows :
    (v a u : ℕ) (ls : List Like)
    → likes_of u (delete_rows (is_pair v a) ls)
        + (if v == u then length (keep (is_pair v a) ls) else 0)
      ≡ likes_of u ls
likes_of-delete_rows v a u [] = ground arith
likes_of-delete_rows v a u (l ∷ ls) = ground (arith, likes_of-delete_rows v a u ls)

-- An UPDATE that leaves ids and counters of likes alone.
pub Counts-update_rows :
    (ls : List Like) (q : Video → Bool) (f : Video → Video) (vs : List Video)
    → ((v : Video) → ((f v).id ≡ v.id) × ((f v).likes_count ≡ v.likes_count))
    → Counts ls vs
    → Counts ls (update_rows q f vs)
Counts-update_rows ls q f [] same h = tt
Counts-update_rows ls q f (v ∷ vs) same h =
    (ground (arith, same v), Counts-update_rows ls q f vs same h.1)

-- One row more, and one more on the counter of its video.
pub Counts-append :
    (r : Like) (ls : List Like) (step : ℤ → ℤ) (vs : List Video)
    → ((n : ℕ) → step (pos n) ≡ pos (suc n))
    → Counts ls vs
    → Counts (ls ++ r ∷ []) (
        update_rows
          (λ v. v.id == r.video_id)
          (λ v. record v { likes_count = step v.likes_count })
          vs)
Counts-append r ls step [] s h = tt
Counts-append r ls step (v ∷ vs) s h = (
  ground (arith, s (likes_of v.id ls), count-append (λ l. l.video_id == v.id) ls (r ∷ [])),
  Counts-append r ls step vs s h.1,
)

-- The row of one user and video less, and one less on the counter of that video.
pub Counts-delete_rows :
    (video a : ℕ) (ls : List Like) (q : Video → Bool) (step : ℤ → ℤ) (vs : List Video)
    → length (keep (is_pair video a) ls) ≡ 1
    → ((v : Video) → (v.id == video) ≡ false → q v ≡ false)
    → ((v : Video) (n : ℕ) → (v.id == video) ≡ true → v.likes_count ≡ pos (suc n) → q v ≡ true)
    → ((n : ℕ) → step (pos (suc n)) ≡ pos n)
    → Counts ls vs
    → Counts
        (delete_rows (is_pair video a) ls)
        (update_rows q (λ v. record v { likes_count = step v.likes_count }) vs)
Counts-delete_rows video a ls q step [] one miss hit s h = tt
Counts-delete_rows video a ls q step (v ∷ vs) one miss hit s h = (
  elim (Bool-cases (v.id == video)) [
    | inl e ↦ ground (
      arith,
      likes_of-delete_rows video a v.id ls,
      hit v (likes_of v.id ls - 1),
      s (likes_of v.id ls - 1),
    )
    | inr e ↦ rw (miss v e) (ground (arith, likes_of-delete_rows video a v.id ls))
  ],
  Counts-delete_rows video a ls q step vs one miss hit s h.1,
)
