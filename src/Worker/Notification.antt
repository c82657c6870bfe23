-- ===== src/Worker/Notification.antt =====
-- internal/worker/notification_worker.go. The decoders are json.Unmarshal into the three events; the
-- hub is what implements NotificationHub, or nothing; the cache is that of the worker.
pub mod Notices
mod Tests
use go_video.Prelude.{
  ℕ, Bool, true, false, ◌||◌, ◌==◌, Option, none, some, List, [], ◌∷◌, Result, ok, err, Error,
  is_dup_key, Act, pure, raise, attempt, ◌>>=◌, ◌>>◌, if◌then◌else◌,
}
use go_video.Prelude.Text.{Text, lit, text_eq, is_empty}
use go_video.Services.Platform.{Platform, time_now}
use go_video.Entities.{Video, Notification, PushMessage, LikeEvent, CommentEvent, SocialEvent}
use go_video.Entities.Schemas.{Cache}

-- notification.PushChannel
abbrev pub push_channel : Text
push_channel = lit "notification:push"

-- The texts that the notifications show, in UTF-8: "点赞了你的视频", "评论了你的视频", "关注了你".
abbrev pub your_video : Text
your_video =
    0xe4 ∷ 0xba ∷ 0x86 ∷ 0xe4 ∷ 0xbd ∷ 0xa0 ∷ 0xe7 ∷ 0x9a ∷ 0x84 ∷ 0xe8 ∷ 0xa7 ∷ 0x86 ∷ 0xe9 ∷ 0xa2
    ∷ 0x91 ∷ []

abbrev pub liked_text : Text
liked_text = 0xe7 ∷ 0x82 ∷ 0xb9 ∷ 0xe8 ∷ 0xb5 ∷ 0x9e ∷ your_video

abbrev pub commented_text : Text
commented_text = 0xe8 ∷ 0xaf ∷ 0x84 ∷ 0xe8 ∷ 0xae ∷ 0xba ∷ your_video

abbrev pub followed_text : Text
followed_text =
    0xe5 ∷ 0x85 ∷ 0xb3 ∷ 0xe6 ∷ 0xb3 ∷ 0xa8 ∷ 0xe4 ∷ 0xba ∷ 0x86 ∷ 0xe4 ∷ 0xbd ∷ 0xa0 ∷ []

abbrev pub notice : Text → ℕ → ℕ → Text → ℕ → Text → Notification
notice event_id recipient sender kind target content = record {
  id = 0;
  event_id = event_id;
  recipient_id = recipient;
  sender_id = sender;
  kind = kind;
  target_id = target;
  content = content;
  is_read = false;
  created_at = 0;
}

-- Scan into a variable that is 0: the author of the row, or 0 where there is none.
abbrev pub author_of : List Video → ℕ
author_of [] = 0
author_of (v ∷ vs) = v.author_id

-- What a worker is told about an event on a video: nothing where the author is unknown or the sender.
abbrev pub unless_own : ℕ → ℕ → Notification → Option Notification
unless_own author sender n = if author == 0 || author == sender then none else some n

abbrev pub build_follow_notification : Option SocialEvent → Option Notification
build_follow_notification none = none
build_follow_notification (some evt) =
    if is_empty evt.event_id || evt.follower_id == 0 || evt.vlogger_id == 0
    then none
    else some (
        notice evt.event_id evt.vlogger_id evt.follower_id (lit "follow") evt.follower_id
          followed_text)

module _ {W : Type 0} (p : Platform W) where
  pub get_video_author_id : ℕ → Act W ℕ
  get_video_author_id video_id = do
    rows ← p.videos.find (λ v. v.id == video_id)
    pure (author_of rows)

  pub build_like_notification : Option LikeEvent → Act W (Option Notification)
  unfolding get_video_author_id
  build_like_notification none = pure none
  build_like_notification (some evt) =
      if is_empty evt.event_id || evt.user_id == 0 || evt.video_id == 0 then pure none else do
        author ← get_video_author_id evt.video_id
        pure (
            unless_own author evt.user_id
              (notice evt.event_id author evt.user_id (lit "like") evt.video_id liked_text))

  pub build_comment_notification : Option CommentEvent → Act W (Option Notification)
  unfolding get_video_author_id
  build_comment_notification none = pure none
  build_comment_notification (some evt) =
      if is_empty evt.event_id || evt.author_id == 0 || evt.video_id == 0 then pure none else do
        author ← get_video_author_id evt.video_id
        pure (
            unless_own author evt.author_id (
              notice evt.event_id author evt.author_id (lit "comment") evt.video_id commented_text))

  module _ (decode_like : Text → Option LikeEvent) (decode_comment : Text → Option CommentEvent)
      (decode_social : Text → Option SocialEvent) (cache : Option (Cache p.view))
      (hub : Option (ℕ → Notification → Act W (Unit {0}))) where
    -- By the routing key of the delivery.
    pub build_notification : Text → Text → Act W (Option Notification)
    unfolding build_like_notification build_comment_notification
    build_notification routing_key body =
        if is_empty body
        then pure none
        else if text_eq routing_key (lit "like.like")
        then build_like_notification (decode_like body)
        else if text_eq routing_key (lit "comment.publish")
        then build_comment_notification (decode_comment body)
        else if text_eq routing_key (lit "social.follow")
        then pure (build_follow_notification (decode_social body))
        else pure none

    push_to_hub : Option (ℕ → Notification → Act W (Unit {0})) → Notification → Act W (Unit {0})
    push_to_hub none n = pure tt
    push_to_hub (some push) n = push n.recipient_id n

    -- What follows a PUBLISH that failed.
    after_publish : Notification → Result (Unit {0}) → Act W (Unit {0})
    unfolding push_to_hub
    after_publish n (ok _) = pure tt
    after_publish n (err e) = do push_to_hub hub n; raise e

    publish_via : Option (Cache p.view) → Notification → Act W (Unit {0})
    unfolding after_publish
    publish_via none n = push_to_hub hub n
    publish_via (some c) n = do
      sent ←
          attempt
            (c.publish push_channel (record { recipient_id = n.recipient_id; notification = n }))
      after_publish n sent

    pub publish_notification : Notification → Act W (Unit {0})
    unfolding publish_via
    publish_notification n = publish_via cache n

    -- What follows the INSERT: an error of the push is only logged.
    after_create : Notification → Result ℕ → Act W (Unit {0})
    after_create n (ok id) = do attempt (publish_notification (record n { id = id })); pure tt
    after_create n (err e) = if is_dup_key e then pure tt else raise e

    -- The INSERT, where gorm has filled in the time.
    pub create : Notification → Act W (Unit {0})
    unfolding after_create
    create n = do result ← attempt (p.notifications.create n); after_create n result

    deliver : Option Notification → Act W (Unit {0})
    unfolding create
    deliver none = pure tt
    deliver (some n) = do now ← time_now p; create (record n { created_at = now })

    pub process : Text → Text → Act W (Unit {0})
    unfolding deliver
    process routing_key body = do n ← build_notification routing_key body; deliver n
