-- ===== src/Api/Like/Counted/Repeated.antt =====
-- Inserting a like that is there and removing one that is not.
use go_video.Prelude.{
  is_dup_key, ◌>>=◌, ℕ, ◌≡◌, refl, inl, inr, ◌∙◌, ap, Bool, Bool-cases, true, false, ◌||◌, List, [],
  ◌∷◌, any, keep, length, arith, ltb, ◌==◌,
}
use go_video.Services.Sql.{Performs, answered, refused, delete_rows_none, performs_cases}
use go_video.Services.Performs.{performs_if}
use go_video.Services.Platform.{Platform}
use go_video.Entities.{Like}
use go_video.Entities.Schemas.{like_schema, likes_at}
use go_video.Api.Like.{is_pair, created, like_ignore_duplicate, delete_by_video_and_account}

any-clash :
    (l : Like) (ls : List Like)
    → any (like_schema.clash l) ls ≡ any (is_pair l.video_id l.account_id) ls
any-clash l [] = refl
any-clash l (m ∷ ls) = ground (arith, any-clash l ls)

keep_none : (q : Like → Bool) (ls : List Like) → any q ls ≡ false → length (keep q ls) ≡ 0
keep_none q [] h = refl
keep_none q (l ∷ ls) h = ground (arith, keep_none q ls)

module _ {W : Type 0} (p : Platform W) where
  pub insert_repeated :
      (l : Like) (w : W)
      → any (is_pair l.video_id l.account_id) (p.view w).likes ≡ true
      → Performs p.view w (like_ignore_duplicate p l w) (λ b s. (b ≡ false) × (s ≡ p.view w))
  unfolding like_ignore_duplicate created ◌>>=◌
  insert_repeated l w there =
      performs_if _ (l.video_id == 0 || l.account_id == 0) _ _ w (answered false refl (refl, refl))
        (elim (p.likes.create_lem l w) [
          | inl (k, e, _, _, fresh, same) ↦ absurd (ground (arith, any-clash l (p.view w).likes))
          | inr (inl (e, _, same)) ↦ rw e (answered false refl (refl, same))
          | inr (inr (x, e, new, same)) ↦ elim (Bool-cases (is_dup_key x)) [
            | inl dup ↦ rw (e, dup) (answered false refl (refl, same))
            | inr fresh ↦ rw (e, fresh) (refused x refl same)
          ]
        ])

  pub remove_missing :
      (video account : ℕ) (w : W)
      → any (is_pair video account) (p.view w).likes ≡ false
      → Performs p.view w
          (delete_by_video_and_account p video account w)
          (λ b s. (b ≡ false) × (s ≡ p.view w))
  unfolding delete_by_video_and_account ◌>>=◌
  remove_missing video account w gone =
      performs_if _ (video == 0 || account == 0) _ _ w (answered false refl (refl, refl))
        (elim (performs_cases (p.likes.delete_lem (is_pair video account) w)) [
          | inl (n, e, (number, same)) ↦ rw e (
              answered (ltb 0 n) refl (
                ground (arith, number, keep_none (is_pair video account) (p.view w).likes gone),
                same
                    ∙ ap (λ x. likes_at.set x (p.view w))
                        (delete_rows_none (is_pair video account) (p.view w).likes
                          (keep_none (is_pair video account) (p.view w).likes gone)),
              ))
          | inr (x, e, same) ↦ rw e (refused x refl same)
        ])
