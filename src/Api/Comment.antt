-- ===== src/Api/Comment.antt =====
-- internal/api/comment: repo.go and service.go. A flag of `CommentService` says whether the pointer
-- of that name is set; `cache` is `p.redis`. gorm fills CreatedAt when a row is created.
pub mod Handler
pub mod Recorded
pub mod Promises
pub mod Author
pub mod Repeated
mod Tests
use go_video.Prelude.{
  ℕ, Bool, true, false, ◌&&◌, ◌||◌, not, Option, none, some, List, [], ◌∷◌, ◌++◌, message,
  unauthorized, record_not_found, is_dup_key, is_ok, Result, ok, err, Act, pure, raise, attempt,
  ◌>>=◌, ◌>>◌, leb, ◌==◌, if◌then◌else◌,
}
use go_video.Prelude.Int.{ℤ, pos, ◌+ℤ◌}
use go_video.Prelude.Text.{Text, lit, is_empty, trim_space}
use go_video.Services.Platform.{Platform, time_now}
use go_video.Entities.{Comment, Video}
use go_video.Middleware.Rabbitmq.{
  rand_hex, mq_publish_comment, mq_delete_comment, mq_update_popularity,
}
use go_video.Api.Video.{is_exist, update_popularity_cache}
use go_video.Api.Like.{enqueue, video_found}

pub record CommentService : Type 0 where
  pub comment_mq : Bool
  pub popularity_mq : Bool

abbrev pub trimmed : Comment → Comment
trimmed c = record c { username = trim_space c.username; content = trim_space c.content }

module _ {W : Type 0} (p : Platform W) where
  -- A missing row is no error here.
  optional : Result Comment → Act W (Option Comment)
  optional (ok c) = pure (some c)
  optional (err record_not_found) = pure none
  optional (err e) = raise e

  -- FindByID and GetByID
  unfoldable pub find_comment : ℕ → Act W (Option Comment)
  unfolding optional
  find_comment id = do found ← attempt (p.comments.first (λ c. c.id == id)); optional found

  unfoldable pub delete_comment : Comment → Act W (Unit {0})
  delete_comment c = do p.comments.delete (λ r. r.id == c.id); pure tt

  -- ORDER BY created_at desc LIMIT 200
  abbrev pub list_all_comments : ℕ → Act W (List Comment)
  list_all_comments video_id =
      p.comments.find_ordered (λ c. c.video_id == video_id) (λ c d. leb d.created_at c.created_at)
        200

  -- The INSERT, with the time that gorm puts in.
  unfoldable pub create_comment : Comment → Act W ℕ
  create_comment c = do now ← time_now p; p.comments.create (record c { created_at = now })

  created : Result ℕ → Act W Bool
  created (ok _) = pure true
  created (err e) = if is_dup_key e then pure false else raise e

  unfoldable pub create_comment_ignore_duplicate : Comment → Act W Bool
  unfolding created
  create_comment_ignore_duplicate c =
      if is_empty c.event_id
      then pure false
      else (do result ← attempt (create_comment c); created result)

  -- The body of the transaction in Publish.
  pub publish_body : Comment → Act W (Unit {0})
  publish_body c = do
    found ← attempt (p.videos.first (λ v. v.id == c.video_id))
    video_found p found
    create_comment c
    p.videos.update (λ v. v.id == c.video_id) (λ v. record v { popularity = v.popularity +ℤ pos 1 })
    pure tt

  -- `if !mysqlEnqueued { … }`
  pub store : Comment → Act W (Unit {0})
  store c = do
    event_id ← rand_hex p 16
    p.transactions.transaction (publish_body (record c { event_id = lit "mock:" ++ event_id }))

  pub publish_now : CommentService → Comment → Act W (Unit {0})
  unfolding store
  publish_now s c = do
    mysql_enqueued ←
        enqueue p s.comment_mq (mq_publish_comment p c.username c.video_id c.author_id c.content)
    redis_enqueued ← enqueue p s.popularity_mq (mq_update_popularity p c.video_id (pos 1))
    if mysql_enqueued && redis_enqueued then pure tt else do
      if mysql_enqueued then pure tt else store c
      if redis_enqueued then pure tt else update_popularity_cache p c.video_id (pos 1)

  -- CommentService.Publish
  pub publish : CommentService → Option Comment → Act W (Unit {0})
  unfolding publish_now
  publish s none = raise (message "comment is nil")
  publish s (some c) =
      if c.video_id == 0 || c.author_id == 0
      then raise (message "video_id and author_id are required")
      else if is_empty (trimmed c).content
      then raise (message "content is required")
      else (do
        exists ← is_exist p c.video_id
        if not exists then raise (message "video not found") else publish_now s (trimmed c))

  -- What Delete does with the comment that it found.
  delete_found : CommentService → ℕ → ℕ → Option Comment → Act W (Unit {0})
  delete_found s comment_id account_id none = raise (message "comment not found")
  delete_found s comment_id account_id (some c) =
      if not (c.author_id == account_id) then raise unauthorized else (do
        enqueued ← enqueue p s.comment_mq (mq_delete_comment p comment_id)
        if enqueued then pure tt else delete_comment c)

  -- CommentService.Delete
  pub delete : CommentService → ℕ → ℕ → Act W (Unit {0})
  unfolding delete_found
  delete s comment_id account_id = do
    found ← find_comment comment_id
    delete_found s comment_id account_id found

  -- CommentService.ListAll
  abbrev pub list_all : ℕ → Act W (List Comment)
  list_all video_id = do
    exists ← is_exist p video_id
    if not exists then raise (message "video not found") else list_all_comments video_id
