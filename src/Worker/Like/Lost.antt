-- ===== src/Worker/Like/Lost.antt =====
-- The like worker writes the row and its counter in two statements that no transaction joins.
use go_video.Prelude.{
  ℕ, ◌≡◌, refl, ◌∙◌, sym, subst, true, List, [], ◌∷◌, ◌++◌, any, arith, ◌==◌, ==_iff, any-append,
  count-append, All,
}
use go_video.Prelude.Int.{pos, ◌+ℤ◌}
use go_video.Services.Platform.{Platform}
use go_video.Entities.{Like, Video, State}
use go_video.Api.Like.{is_pair}
use go_video.Api.Like.Counted.Rows.{Counts, likes_of}
use go_video.Worker.Like.{apply_like}
use go_video.Worker.Like.Redelivery.{apply_like_again}

-- The video is in the table, and its counter is one below the number of its likes.
abbrev pub MissesOne : ℕ → State → Type 0
MissesOne video s =
    (any (λ x. x.id == video) s.videos ≡ true)
    × All (λ x. x.id ≡ video → x.likes_count +ℤ pos 1 ≡ pos (likes_of video s.likes)) s.videos

one_missed :
    (r : Like) (ls : List Like) (vs : List Video)
    → Counts ls vs
    → All
        (λ x. x.id ≡ r.video_id → x.likes_count +ℤ pos 1 ≡ pos (likes_of r.video_id (ls ++ r ∷ [])))
        vs
one_missed r ls [] h = tt
one_missed r ls (v ∷ vs) h = (
  λ e.
      rw (h.0, e)
        (ground (
          arith,
          count-append (λ l. l.video_id == r.video_id) ls (r ∷ []),
          (==_iff r.video_id r.video_id).1 refl,
        )),
  one_missed r ls vs h.1,
)

module _ {W : Type 0} (p : Platform W) (user video : ℕ) where
  -- Let the counter of every video be right and the video be in the table, and let one run of
  -- apply_like insert the user's row but leave the videos table as it was, because the UPDATE of the
  -- counter failed. If the event is delivered again in that state, then, whatever fails or succeeds
  -- in the second run, the counter of that video stays one below the number of its likes.
  pub lost_like :
      (w v : W) (r : Like)
      → Counts (p.view w).likes (p.view w).videos
      → any (λ x. x.id == video) (p.view w).videos ≡ true
      → (p.view (apply_like p user video w).1).likes ≡ (p.view w).likes ++ r ∷ []
      → r.video_id ≡ video
      → r.account_id ≡ user
      → (p.view (apply_like p user video w).1).videos ≡ (p.view w).videos
      → p.view v ≡ p.view (apply_like p user video w).1
      → MissesOne video (p.view (apply_like p user video v).1)
  lost_like w v r counted there inserted at_video at_user uncounted again =
      subst (MissesOne video) (sym (apply_like_again p user video v there_again ∙ again))
        (rw (uncounted, inserted) (there, missed))
    where
      there_again : any (is_pair video user) (p.view v).likes ≡ true
      there_again =
          rw (again, inserted)
            (ground (
              arith,
              any-append (is_pair video user) (p.view w).likes (r ∷ []),
              (==_iff r.video_id video).1 at_video,
              (==_iff r.account_id user).1 at_user,
            ))

      missed :
          All
            (λ x.
              x.id ≡ video
              → x.likes_count +ℤ pos 1 ≡ pos (likes_of video ((p.view w).likes ++ r ∷ [])))
            (p.view w).videos
      missed =
          subst
            (λ i.
              All
                (λ x.
                  x.id ≡ i → x.likes_count +ℤ pos 1 ≡ pos (likes_of i ((p.view w).likes ++ r ∷ [])))
                (p.view w).videos)
            at_video (one_missed r (p.view w).likes (p.view w).videos counted)
