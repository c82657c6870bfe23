-- ===== src/Middleware/Rabbitmq.antt =====
-- internal/middleware/rabbitmq: the producers, and `RandHex` of internal/util/util.go. A producer
-- that is nil is the value `none`.
pub mod Laws
pub mod Facts
use go_video.Prelude.{
  ℕ, Bool, false, ◌||◌, Option, none, some, List, [], message, Act, raise, ◌>>=◌, ◌==◌,
  if◌then◌else◌,
}
use go_video.Prelude.Int.{ℤ, pos}
use go_video.Prelude.Text.{Text, lit, is_empty}
use go_video.Services.Sql.{Lens}
use go_video.Services.Broker.{Channel}
use go_video.Services.Platform.{Platform, time_now}
use go_video.Entities.{CommentEvent, Sent, State}

abbrev pub like_exchange : Text
like_exchange = lit "like.events"

abbrev pub comment_exchange : Text
comment_exchange = lit "comment.events"

abbrev pub social_exchange : Text
social_exchange = lit "social.events"

abbrev pub popularity_exchange : Text
popularity_exchange = lit "video.popularity.events"

abbrev pub timeline_exchange : Text
timeline_exchange = lit "video.timeline.events"

abbrev pub is_zero : ℤ → Bool
is_zero (pos n) = n == 0
is_zero _ = false

module _ {W : Type 0} (p : Platform W) where
  unfoldable pub rand_hex : ℕ → Act W Text
  rand_hex n = p.rand_read n

  -- (*RabbitMQ).PublishJSON; the payloads are structs, which json.Marshal does not refuse.
  unfoldable pub publish_json :
      {E : Type 0} {at : Lens State (List (Sent E))}
      → Option (Channel p.view E at)
      → Text
      → Text
      → E
      → Act W (Unit {0})
  publish_json none exchange routing_key payload = raise (message "rabbitmq is not initialized")
  publish_json (some ch) exchange routing_key payload =
      if is_empty exchange || is_empty routing_key
      then raise (message "exchange and routingKey are required")
      else ch.send exchange routing_key payload

  -- (*LikeMQ).publish
  like_publish : Text → Text → ℕ → ℕ → Act W (Unit {0})
  like_publish action routing_key user_id video_id =
      if user_id == 0 || video_id == 0
      then raise (message "userID and videoID are required")
      else (do
        id ← rand_hex 16
        t ← time_now p
        publish_json p.like_channel like_exchange routing_key (record {
          event_id = id;
          action = action;
          user_id = user_id;
          video_id = video_id;
          occurred_at = t;
        }))

  unfoldable pub mq_like : ℕ → ℕ → Act W (Unit {0})
  unfolding like_publish
  mq_like = like_publish (lit "like") (lit "like.like")

  unfoldable pub mq_unlike : ℕ → ℕ → Act W (Unit {0})
  unfolding like_publish
  mq_unlike = like_publish (lit "unlike") (lit "like.unlike")

  -- (*CommentMQ).publish
  comment_publish : Text → Text → CommentEvent → Act W (Unit {0})
  comment_publish action routing_key evt = do
    id ← rand_hex 16
    t ← time_now p
    publish_json p.comment_channel comment_exchange routing_key
        (record evt { event_id = id; action = action; occurred_at = t })

  unfoldable pub mq_publish_comment : Text → ℕ → ℕ → Text → Act W (Unit {0})
  unfolding comment_publish
  mq_publish_comment username video_id author_id content =
      comment_publish (lit "publish") (lit "comment.publish") (record {
        event_id = [];
        action = [];
        comment_id = 0;
        username = username;
        video_id = video_id;
        author_id = author_id;
        content = content;
        occurred_at = 0;
      })

  unfoldable pub mq_delete_comment : ℕ → Act W (Unit {0})
  unfolding comment_publish
  mq_delete_comment comment_id = comment_publish (lit "delete") (lit "comment.delete") (record {
    event_id = [];
    action = [];
    comment_id = comment_id;
    username = [];
    video_id = 0;
    author_id = 0;
    content = [];
    occurred_at = 0;
  })

  -- (*SocialMQ).publish
  social_publish : Text → Text → ℕ → ℕ → Act W (Unit {0})
  social_publish action routing_key follower_id vlogger_id =
      if follower_id == 0 || vlogger_id == 0
      then raise (message "followerID and vloggerID are required")
      else (do
        id ← rand_hex 16
        t ← time_now p
        publish_json p.social_channel social_exchange routing_key (record {
          event_id = id;
          action = action;
          follower_id = follower_id;
          vlogger_id = vlogger_id;
          occurred_at = t;
        }))

  unfoldable pub mq_follow : ℕ → ℕ → Act W (Unit {0})
  unfolding social_publish
  mq_follow = social_publish (lit "follow") (lit "social.follow")

  unfoldable pub mq_unfollow : ℕ → ℕ → Act W (Unit {0})
  unfolding social_publish
  mq_unfollow = social_publish (lit "unfollow") (lit "social.unfollow")

  -- (*PopularityMQ).Update and publish
  unfoldable pub mq_update_popularity : ℕ → ℤ → Act W (Unit {0})
  mq_update_popularity video_id change =
      if video_id == 0 || is_zero change
      then raise (message "videoID and change are required")
      else (do
        id ← rand_hex 16
        t ← time_now p
        publish_json p.popularity_channel popularity_exchange (lit "video.popularity.update")
            (record {
              event_id = id;
              action = lit "update";
              video_id = video_id;
              change = change;
              occurred_at = t;
            }))

  -- (*TimelineMQ).Publish and publish
  unfoldable pub mq_publish_timeline : ℕ → ℕ → Act W (Unit {0})
  mq_publish_timeline video_id create_time =
      if video_id == 0 then raise (message "videoID is required") else (do
        id ← rand_hex 16
        t ← time_now p
        publish_json p.timeline_channel timeline_exchange (lit "video.timeline.publish") (record {
          event_id = id;
          action = lit "publish";
          video_id = video_id;
          create_time = create_time;
          occurred_at = t;
        }))
