-- ===== src/Worker/Social.antt =====
-- internal/worker/social_worker.go. `decode` is json.Unmarshal into a SocialEvent.
pub mod Effects
mod Tests
use go_video.Prelude.{
  ℕ, Bool, true, false, ◌||◌, Option, none, some, Result, ok, err, is_dup_key, Act, pure, raise,
  attempt, ◌>>=◌, ◌>>◌, ◌==◌, if◌then◌else◌,
}
use go_video.Prelude.Text.{Text, lit, text_eq}
use go_video.Services.Platform.{Platform}
use go_video.Entities.{Social, SocialEvent}
use go_video.Api.Social.{insert_follow, delete_follow}

abbrev pub follow_of : SocialEvent → Social
follow_of evt = record { id = 0; follower_id = evt.follower_id; vlogger_id = evt.vlogger_id }

module _ {W : Type 0} (p : Platform W) where
  -- A duplicate is no error.
  ignore_duplicate : Result (Unit {0}) → Act W (Unit {0})
  ignore_duplicate (ok _) = pure tt
  ignore_duplicate (err e) = if is_dup_key e then pure tt else raise e

  pub apply_follow : SocialEvent → Act W (Unit {0})
  unfolding ignore_duplicate
  apply_follow evt = do result ← attempt (insert_follow p (follow_of evt)); ignore_duplicate result

  pub apply_unfollow : SocialEvent → Act W (Unit {0})
  apply_unfollow evt = delete_follow p (follow_of evt)

  consume : Option SocialEvent → Act W (Unit {0})
  consume none = pure tt
  consume (some evt) =
      if evt.follower_id == 0 || evt.vlogger_id == 0
      then pure tt
      else if text_eq evt.action (lit "follow")
      then apply_follow evt
      else if text_eq evt.action (lit "unfollow")
      then apply_unfollow evt
      else pure tt

  pub process : (Text → Option SocialEvent) → Text → Act W (Unit {0})
  unfolding consume
  process decode body = consume (decode body)
