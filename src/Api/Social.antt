-- ===== src/Api/Social.antt =====
-- internal/api/social: repo.go and service.go. The flag `social_mq` says whether the pointer of that
-- name is set.
pub mod Facts
pub mod Recorded
pub mod Handler
mod Tests
use go_video.Prelude.{
  ℕ, Bool, true, false, ◌&&◌, not, List, [], ◌∷◌, message, Result, is_ok, ok, err, Act, pure, raise,
  attempt, ◌>>=◌, ◌>>◌, ltb, ◌==◌, mem, map, if◌then◌else◌,
}
use go_video.Services.Platform.{Platform}
use go_video.Entities.{Social, Account}
use go_video.Middleware.Rabbitmq.{mq_follow, mq_unfollow}
use go_video.Api.Account.{find_account}

-- The rows of one follower and one vlogger.
abbrev pub same_follow : ℕ → ℕ → Social → Bool
same_follow follower vlogger s = s.follower_id == follower && s.vlogger_id == vlogger

module _ {W : Type 0} (p : Platform W) where
  unfoldable pub is_followed : Social → Act W Bool
  is_followed s = do
    n ← p.socials.count_rows (same_follow s.follower_id s.vlogger_id)
    pure (ltb 0 n)

  -- SocialRepo.Follow and SocialRepo.Unfollow
  unfoldable pub insert_follow : Social → Act W (Unit {0})
  insert_follow s = do p.socials.create s; pure tt

  unfoldable pub delete_follow : Social → Act W (Unit {0})
  delete_follow s = do p.socials.delete (same_follow s.follower_id s.vlogger_id); pure tt

  abbrev pub accounts_of : List ℕ → Act W (List Account)
  accounts_of [] = pure []
  accounts_of (id ∷ ids) = p.accounts.find (λ a. mem a.id (id ∷ ids))

  -- LIMIT 200 without ORDER BY: any 200 of them.
  abbrev pub get_all_followers : ℕ → Act W (List Account)
  get_all_followers vlogger_id = do
    socials ← p.socials.find_ordered (λ s. s.vlogger_id == vlogger_id) (λ s r. true) 200
    accounts_of (map (λ (s : Social). s.follower_id) socials)

  abbrev pub get_all_vloggers : ℕ → Act W (List Account)
  get_all_vloggers follower_id = do
    socials ← p.socials.find_ordered (λ s. s.follower_id == follower_id) (λ s r. true) 200
    accounts_of (map (λ (s : Social). s.vlogger_id) socials)

  abbrev pub count_followers : ℕ → Act W ℕ
  count_followers vlogger_id = p.socials.count_rows (λ s. s.vlogger_id == vlogger_id)

  abbrev pub count_vloggers : ℕ → Act W ℕ
  count_vloggers follower_id = p.socials.count_rows (λ s. s.follower_id == follower_id)

  -- The queue if it takes the message, the table otherwise.
  queue_or : Bool → Act W (Unit {0}) → Act W (Unit {0}) → Act W (Unit {0})
  queue_or false send write = write
  queue_or true send write = do result ← attempt send; if is_ok result then pure tt else write

  -- SocialService.Follow
  pub follow : Bool → Social → Act W (Unit {0})
  unfolding queue_or
  follow social_mq s = do
    find_account p s.follower_id
    find_account p s.vlogger_id
    if s.follower_id == s.vlogger_id then raise (message "can not follow yourself") else do
      followed ← is_followed s
      if followed
          then raise (message "already followed")
          else queue_or social_mq (mq_follow p s.follower_id s.vlogger_id) (insert_follow s)

  -- SocialService.Unfollow
  pub unfollow : Bool → Social → Act W (Unit {0})
  unfolding queue_or
  unfollow social_mq s = do
    find_account p s.follower_id
    find_account p s.vlogger_id
    followed ← is_followed s
    if not followed
        then raise (message "not followed")
        else queue_or social_mq (mq_unfollow p s.follower_id s.vlogger_id) (delete_follow s)

  abbrev pub list_all_followers : ℕ → Act W (List Account)
  list_all_followers vlogger_id = do find_account p vlogger_id; get_all_followers vlogger_id

  abbrev pub list_all_vloggers : ℕ → Act W (List Account)
  list_all_vloggers follower_id = do find_account p follower_id; get_all_vloggers follower_id
