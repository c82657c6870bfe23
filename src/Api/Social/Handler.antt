-- ===== src/Api/Social/Handler.antt =====
-- internal/api/social/handler.go. A request's body is the account id that it names, 0 for none.
use go_video.Prelude.{
  Bool, ℕ, Option, List, Result, ok, message, Act, pure, attempt, or_else, ◌>>=◌, ◌==◌,
  if◌then◌else◌,
}
use go_video.Services.Platform.{Platform}
use go_video.Entities.{Social, Account}
use go_video.Api.Http.{
  Response, answered, failed, classified, get_account_id, respond_classified, or_return, unless_bad,
}
use go_video.Api.Social.{
  follow, unfollow, list_all_followers, list_all_vloggers, count_followers, count_vloggers,
}

abbrev pub social_of : ℕ → ℕ → Social
social_of follower_id vlogger_id = record {
  id = 0;
  follower_id = follower_id;
  vlogger_id = vlogger_id;
}

-- The account that is named, or else that of the request.
abbrev pub named_or_own : ℕ → Option ℕ → Result ℕ
named_or_own id context = if id == 0 then get_account_id context else ok id

module _ {W : Type 0} (p : Platform W) where
  -- SocialHandler.Follow
  abbrev pub handle_follow : Bool → Result ℕ → Option ℕ → Act W (Response (Unit {0}))
  handle_follow social_mq body context = or_return classified body (λ vlogger_id.
      unless_bad (vlogger_id == 0) (message "vlogger_id is required") (
        or_return (failed 401) (get_account_id context) (λ follower_id. do
          result ← attempt (follow p social_mq (social_of follower_id vlogger_id))
          pure (respond_classified result))))

  -- SocialHandler.Unfollow
  abbrev pub handle_unfollow : Bool → Result ℕ → Option ℕ → Act W (Response (Unit {0}))
  handle_unfollow social_mq body context = or_return classified body (λ vlogger_id.
      unless_bad (vlogger_id == 0) (message "vlogger_id is required") (
        or_return (failed 401) (get_account_id context) (λ follower_id. do
          result ← attempt (unfollow p social_mq (social_of follower_id vlogger_id))
          pure (respond_classified result))))

  -- SocialHandler.ListAllFollowers: a count that cannot be read is 0.
  abbrev pub handle_list_all_followers : Result ℕ → Option ℕ → Act W (Response (List Account × ℕ))
  handle_list_all_followers body context = or_return classified body (λ id.
      or_return (failed 401) (named_or_own id context) (λ vlogger_id. do
        followers ← attempt (list_all_followers p vlogger_id)
        or_return classified followers (λ (found : List Account). do
          n ← attempt (count_followers p vlogger_id)
          pure (answered (found, or_else 0 n)))))

  -- SocialHandler.ListAllVloggers
  abbrev pub handle_list_all_vloggers : Result ℕ → Option ℕ → Act W (Response (List Account × ℕ))
  handle_list_all_vloggers body context = or_return classified body (λ id.
      or_return (failed 401) (named_or_own id context) (λ follower_id. do
        vloggers ← attempt (list_all_vloggers p follower_id)
        or_return classified vloggers (λ (found : List Account). do
          n ← attempt (count_vloggers p follower_id)
          pure (answered (found, or_else 0 n)))))

  -- SocialHandler.GetCounts: of the followers and of those that are followed.
  abbrev pub handle_get_counts : Option ℕ → Act W (Response (ℕ × ℕ))
  handle_get_counts context = or_return (failed 401) (get_account_id context) (λ account_id. do
    followers ← attempt (count_followers p account_id)
    vloggers ← attempt (count_vloggers p account_id)
    pure (answered (or_else 0 followers, or_else 0 vloggers)))
