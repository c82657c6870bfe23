-- ===== src/Api/Profile/Handler.antt =====
-- internal/api/profile/handler.go. The body is an account id.
use go_video.Prelude.{ℕ, Result, message, Act, pure, attempt, ◌>>=◌, ◌==◌}
use go_video.Services.Platform.{Platform}
use go_video.Api.Http.{Response, failed, respond, or_return, unless_bad}
use go_video.Api.Profile.{Profile, get_account_profile}

module _ {W : Type 0} (p : Platform W) where
  abbrev pub handle_get_account_profile : Result ℕ → Act W (Response Profile)
  handle_get_account_profile body = or_return (failed 400) body (λ account_id.
      unless_bad (account_id == 0) (message "account_id is required")
        (do result ← attempt (get_account_profile p account_id); pure (respond 500 result)))
