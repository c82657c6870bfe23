-- ===== src/Worker/Like/Redelivery.antt =====
-- The broker may deliver a like event twice.
use go_video.Prelude.{if◌then◌else◌, ℕ, ◌≡◌, inl, inr, ◌∙◌, Bool, true, false, not, any, Act, pure}
use go_video.Services.Sql.{Performs, performs_cases}
use go_video.Services.Keeps.{Keeps-time_now}
use go_video.Services.Performs.{
  performs_if, performs_pure, performs_bind, performs_after, quiet_of_Keeps,
}
use go_video.Services.Platform.{Platform}
use go_video.Entities.{State}
use go_video.Api.Video.Facts.{Keeps-is_exist}
use go_video.Api.Like.{is_pair}
use go_video.Api.Like.Counted.Repeated.{insert_repeated, remove_missing}
use go_video.Worker.Like.{apply_like, apply_unlike}

module _ {W : Type 0} (p : Platform W) (user video : ℕ) where
  stops :
      (rest : Act W (Unit {0})) (b : Bool) (w : W) (s : State)
      → b ≡ false
      → p.view w ≡ s
      → Performs p.view w ((if not b then pure tt else rest) w) (λ _ x. x ≡ s)
  stops rest true w s e same = absurd (cc)
  stops rest false w s e same = performs_pure _ tt w same

  apply_like_repeated :
      (w : W)
      → any (is_pair video user) (p.view w).likes ≡ true
      → Performs p.view w (apply_like p user video w) (λ _ s. s ≡ p.view w)
  unfolding apply_like
  apply_like_repeated w there =
      performs_after _ _ _ w (quiet_of_Keeps _ w (Keeps-is_exist p video)) (λ exists w1 s1.
        performs_if _ (not exists) _ _ w1 (performs_pure _ tt w1 s1) (
          performs_after _ _ _ w1 (quiet_of_Keeps _ w1 (Keeps-time_now p)) (λ now w2 s2.
            performs_bind (λ b. b ≡ false) _ _ _ w2 (insert_repeated p _ w2 (rw (s2 ∙ s1) there))
              (λ b w3 none_made s3. stops _ b w3 (p.view w) none_made (s3 ∙ s2 ∙ s1)))))

  apply_unlike_repeated :
      (w : W)
      → any (is_pair video user) (p.view w).likes ≡ false
      → Performs p.view w (apply_unlike p user video w) (λ _ s. s ≡ p.view w)
  unfolding apply_unlike
  apply_unlike_repeated w gone =
      performs_after _ _ _ w (quiet_of_Keeps _ w (Keeps-is_exist p video)) (λ exists w1 s1.
        performs_if _ (not exists) _ _ w1 (performs_pure _ tt w1 s1) (
          performs_bind (λ b. b ≡ false) _ _ _ w1 (remove_missing p video user w1 (rw s1 gone))
            (λ b w2 none_gone s2. stops _ b w2 (p.view w) none_gone (s2 ∙ s1))))

  -- Applying a like that is in the table changes nothing, whether it succeeds or fails.
  pub apply_like_again :
      (w : W)
      → any (is_pair video user) (p.view w).likes ≡ true
      → p.view (apply_like p user video w).1 ≡ p.view w
  apply_like_again w there = elim (performs_cases (apply_like_repeated w there)) [
    | inl (a, e, same) ↦ same
    | inr (x, e, same) ↦ same
  ]

  -- Applying an unlike whose like is gone changes nothing, whether it succeeds or fails.
  pub apply_unlike_again :
      (w : W)
      → any (is_pair video user) (p.view w).likes ≡ false
      → p.view (apply_unlike p user video w).1 ≡ p.view w
  apply_unlike_again w gone = elim (performs_cases (apply_unlike_repeated w gone)) [
    | inl (a, e, same) ↦ same
    | inr (x, e, same) ↦ same
  ]
