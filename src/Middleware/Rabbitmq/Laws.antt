-- ===== src/Middleware/Rabbitmq/Laws.antt =====
-- What each producer of internal/middleware/rabbitmq hands to the client: if it succeeds, the one
-- publication that was asked for, if it fails, none that the client took.
use go_video.Prelude.{ℕ, ◌≡◌, Option, none, some, List, [], ◌∷◌, ◌++◌, ◌||◌, ◌>>=◌, ap, ◌∙◌, ◌==◌}
use go_video.Prelude.Int.{ℤ}
use go_video.Prelude.Text.{Text, lit, is_empty}
use go_video.Services.Sql.{Lens, Performs}
use go_video.Services.Performs.{performs_raise, performs_if, performs_weaken, performs_after}
use go_video.Services.Broker.{Channel}
use go_video.Services.Platform.{Platform, time_now}
use go_video.Entities.{CommentEvent, SocialEvent, LikeEvent, Sent, State}
use go_video.Middleware.Rabbitmq.{
  comment_exchange, mq_publish_comment, social_exchange, mq_follow, mq_unfollow, like_exchange,
  mq_like, mq_unlike, popularity_exchange, is_zero, rand_hex, publish_json, mq_update_popularity,
  mq_publish_timeline, timeline_exchange,
}

module _ {W : Type 0} (p : Platform W) where
  pub publish_json-performs :
      {E : Type 0} {at : Lens State (List (Sent E))} (ch : Option (Channel p.view E at))
      (exchange key : Text) (e : E) (w : W)
      → Performs p.view w
          (publish_json p ch exchange key e w)
          (λ _ s. s ≡ at.set (at.get (p.view w) ++ (exchange, key, e) ∷ []) (p.view w))
  unfolding publish_json
  publish_json-performs none exchange key e w = performs_raise _ _ w
  publish_json-performs {at = at} (some ch) exchange key e w =
      performs_if (λ _ s. s ≡ at.set (at.get (p.view w) ++ (exchange, key, e) ∷ []) (p.view w))
        (is_empty exchange || is_empty key) _ (ch.send exchange key e) w (performs_raise _ _ w)
        (ch.taken_lem exchange key e w)

  -- A producer that draws an event id and then publishes one event.
  module _ {E : Type 0} {at : Lens State (List (Sent E))} (ch : Option (Channel p.view E at)) where
    -- One event more, with some id and some time.
    abbrev pub Appends : Text → Text → (Text → ℕ → E) → State → State → Type 0
    Appends exchange key make s s' =
        (id : Text) × (t : ℕ) × (s' ≡ at.set (at.get s ++ (exchange, key, make id t) ∷ []) s)

    publishes-performs :
        (exchange key : Text) (make : Text → ℕ → E) (w : W)
        → Performs p.view w
            ((do id ← rand_hex p 16; t ← time_now p; publish_json p ch exchange key (make id t)) w)
            (λ _ s. Appends exchange key make (p.view w) s)
    unfolding rand_hex time_now ◌>>=◌
    publishes-performs exchange key make w =
        performs_after (λ _ s. Appends exchange key make (p.view w) s) (p.rand_read 16) _ w
          (p.rand_read_lem 16 w)
          (λ id w' same.
            performs_weaken _ _ w' _
              (λ a s e. (
                id,
                p.now w',
                e ∙ ap (λ x. at.set (at.get x ++ (exchange, key, make id (p.now w')) ∷ []) x) same,
              ))
              (publish_json-performs ch exchange key (make id (p.now w')) w'))

  pub mq_update_popularity-performs :
      (video : ℕ) (change : ℤ) (w : W)
      → Performs p.view w (mq_update_popularity p video change w) (λ _ s.
        Appends p.popularity_channel popularity_exchange
          (lit "video.popularity.update")
          (λ id t. record {
            event_id = id;
            action = lit "update";
            video_id = video;
            change = change;
            occurred_at = t;
          })
          (p.view w)
          s)
  unfolding mq_update_popularity
  mq_update_popularity-performs video change w =
      performs_if _ (video == 0 || is_zero change) _ _ w (performs_raise _ _ w)
        (publishes-performs p.popularity_channel _ _ _ w)

  pub mq_publish_timeline-performs :
      (video time : ℕ) (w : W)
      → Performs p.view w (mq_publish_timeline p video time w) (λ _ s.
        Appends p.timeline_channel timeline_exchange
          (lit "video.timeline.publish")
          (λ id t. record {
            event_id = id;
            action = lit "publish";
            video_id = video;
            create_time = time;
            occurred_at = t;
          })
          (p.view w)
          s)
  unfolding mq_publish_timeline
  mq_publish_timeline-performs video time w =
      performs_if _ (video == 0) _ _ w (performs_raise _ _ w)
        (publishes-performs p.timeline_channel _ _ _ w)

  -- The like event of a user and a video.
  abbrev pub like_event : Text → ℕ → ℕ → Text → ℕ → LikeEvent
  like_event action user video id t = record {
    event_id = id;
    action = action;
    user_id = user;
    video_id = video;
    occurred_at = t;
  }

  pub mq_like-performs :
      (user video : ℕ) (w : W)
      → Performs p.view w (mq_like p user video w) (λ _ s.
        Appends p.like_channel like_exchange
          (lit "like.like")
          (like_event (lit "like") user video)
          (p.view w)
          s)
  unfolding mq_like
  mq_like-performs user video w =
      performs_if _ (user == 0 || video == 0) _ _ w (performs_raise _ _ w)
        (publishes-performs p.like_channel _ _ _ w)

  pub mq_unlike-performs :
      (user video : ℕ) (w : W)
      → Performs p.view w (mq_unlike p user video w) (λ _ s.
        Appends p.like_channel like_exchange
          (lit "like.unlike")
          (like_event (lit "unlike") user video)
          (p.view w)
          s)
  unfolding mq_unlike
  mq_unlike-performs user video w =
      performs_if _ (user == 0 || video == 0) _ _ w (performs_raise _ _ w)
        (publishes-performs p.like_channel _ _ _ w)

  -- The social event of a follower and a vlogger.
  abbrev pub social_event : Text → ℕ → ℕ → Text → ℕ → SocialEvent
  social_event action follower vlogger id t = record {
    event_id = id;
    action = action;
    follower_id = follower;
    vlogger_id = vlogger;
    occurred_at = t;
  }

  pub mq_follow-performs :
      (follower vlogger : ℕ) (w : W)
      → Performs p.view w (mq_follow p follower vlogger w) (λ _ s.
        Appends p.social_channel social_exchange
          (lit "social.follow")
          (social_event (lit "follow") follower vlogger)
          (p.view w)
          s)
  unfolding mq_follow
  mq_follow-performs follower vlogger w =
      performs_if _ (follower == 0 || vlogger == 0) _ _ w (performs_raise _ _ w)
        (publishes-performs p.social_channel _ _ _ w)

  pub mq_unfollow-performs :
      (follower vlogger : ℕ) (w : W)
      → Performs p.view w (mq_unfollow p follower vlogger w) (λ _ s.
        Appends p.social_channel social_exchange
          (lit "social.unfollow")
          (social_event (lit "unfollow") follower vlogger)
          (p.view w)
          s)
  unfolding mq_unfollow
  mq_unfollow-performs follower vlogger w =
      performs_if _ (follower == 0 || vlogger == 0) _ _ w (performs_raise _ _ w)
        (publishes-performs p.social_channel _ _ _ w)

  -- The event that asks to publish a comment.
  abbrev pub comment_event : Text → ℕ → ℕ → Text → Text → ℕ → CommentEvent
  comment_event username video author content id t = record {
    event_id = id;
    action = lit "publish";
    comment_id = 0;
    username = username;
    video_id = video;
    author_id = author;
    content = content;
    occurred_at = t;
  }

  pub mq_publish_comment-performs :
      (username : Text) (video author : ℕ) (content : Text) (w : W)
      → Performs p.view w (mq_publish_comment p username video author content w) (λ _ s.
        Appends p.comment_channel comment_exchange
          (lit "comment.publish")
          (comment_event username video author content)
          (p.view w)
          s)
  unfolding mq_publish_comment
  mq_publish_comment-performs username video author content w =
      publishes-performs p.comment_channel _ _ _ w
