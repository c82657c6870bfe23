-- ===== src/Middleware/SlidingWindow/Tests.antt =====
-- Two requests a second.
use go_video.Prelude.{some, false, message, true, ◌≡◌, ◌≤◌, refl, [], ◌∷◌, keep, length, arith}
use go_video.Prelude.Text.{lit}
use go_video.Middleware.SlidingWindow.{
  pos, empty_bucket, in_window, script, sliding_window_allow_at, read_result, answers, fails,
}
use go_video.Middleware.SlidingWindow.Limit.{requests, window_bound}

-- The third is refused, the one after the window passes.
third_refused :
    (requests
      (lit "k")
      2
      1000
      ((2600, answers) ∷ (1700, answers) ∷ (1600, answers) ∷ (1500, answers) ∷ [])).1
    ≡ 2600 ∷ 1600 ∷ 1500 ∷ []
unfolding sliding_window_allow_at script read_result
third_refused = refl

-- A call that fails lets its request pass.
failure_passes :
    (sliding_window_allow_at true (lit "k") 2 1000 1700 (fails false (message "no")) empty_bucket).0
    ≡ (true, pos 0, some (message "no"))
unfolding sliding_window_allow_at script read_result
failure_passes = refl

window_bound_example :
    length (
      keep
        (in_window 1000 1700)
        (requests
          (lit "k")
          2
          1000
          ((1700, answers) ∷ (1600, fails true (message "no")) ∷ (1500, answers) ∷ [])).1)
    ≤ 2
window_bound_example =
    window_bound (lit "k") 2 1000 refl (λ e. ground arith) (λ e. ground arith) 1700 answers
      ((1600, fails true (message "no")) ∷ (1500, answers) ∷ []) (omega arith, (omega arith, tt))
