-- ===== src/Services/Platform.antt =====
-- All the services together, over one hidden state `W` of the outside world. The components take a
-- value of this record as a parameter.
use go_video.Prelude.{ℕ, ◌≡◌, List, Act, Option, ok, leb, take, map}
use mathlib.Core.List.{Perm}
use go_video.Prelude.Text.{Text}
use go_video.Services.Sql.{Table, Transactions, Performs, Ordered}
use go_video.Services.Broker.{Channel}
use go_video.Services.Credentials.{Passwords, Tokens}
use go_video.Entities.{
  Video, OutboxMsg, Like, Comment, Social, Account, LikeEvent, CommentEvent, SocialEvent,
  PopularityEvent, TimelineEvent, Message, Tag, VideoTag, Notification, State,
}
use go_video.Entities.Schemas.{
  video_schema, outbox_schema, like_schema, comment_schema, social_schema, account_schema,
  message_schema, tag_schema, video_tag_schema, notification_schema, videos_at, outbox_at, likes_at,
  comments_at, socials_at, accounts_at, like_publications_at, comment_publications_at,
  social_publications_at, popularity_publications_at, timeline_publications_at, messages_at,
  tags_at, video_tags_at, notifications_at, Cache,
}

pub record Platform (W : Type 0) : Type 0 where
  pub view : W → State
  pub videos : Table view Video video_schema videos_at
  pub outbox : Table view OutboxMsg outbox_schema outbox_at
  pub likes : Table view Like like_schema likes_at
  pub comments : Table view Comment comment_schema comments_at
  pub socials : Table view Social social_schema socials_at
  pub accounts : Table view Account account_schema accounts_at
  pub messages : Table view Message message_schema messages_at
  pub tags : Table view Tag tag_schema tags_at
  pub video_tags : Table view VideoTag video_tag_schema video_tags_at
  pub notifications : Table view Notification notification_schema notifications_at
  -- SELECT of videos with a key, out of a join of the tables: ORDER BY key DESC LIMIT n.
  pub select_videos : (State → List (ℕ × Video)) → ℕ → Act W (List Video)
  pub select_videos_lem :
      (rows : State → List (ℕ × Video)) (n : ℕ) (w : W)
      → Performs view w (select_videos rows n w) (λ out s.
        ((all : List (ℕ × Video)) × Perm all (rows (view w))
          × Ordered (λ a b. leb b.0 a.0) all
          × (out ≡ take n (map (λ (r : ℕ × Video). r.1) all)))
        × (s ≡ view w))
  pub transactions : Transactions view
  -- An absent channel is a nil `*RabbitMQ` or a nil `Ch`, an absent redis a nil `*rediscache.Client`.
  pub like_channel : Option (Channel view LikeEvent like_publications_at)
  pub comment_channel : Option (Channel view CommentEvent comment_publications_at)
  pub social_channel : Option (Channel view SocialEvent social_publications_at)
  pub popularity_channel : Option (Channel view PopularityEvent popularity_publications_at)
  pub timeline_channel : Option (Channel view TimelineEvent timeline_publications_at)
  pub redis : Option (Cache view)
  pub passwords : Passwords view
  pub tokens : Tokens
  -- jwtSigningSecret of internal/auth/jwt.go, as it was set at the start
  pub jwt_signing_secret : Text
  -- time.Now, in milliseconds
  pub now : W → ℕ
  -- crypto/rand and its hexadecimal text, for a number of bytes
  pub rand_read : ℕ → Act W Text
  pub rand_read_lem : (n : ℕ) (w : W) → Performs view w (rand_read n w) (λ _ s. s ≡ view w)

-- time.Now as an action
unfoldable pub time_now : {W : Type 0} → Platform W → Act W ℕ
time_now p w = (ok (p.now w), w)
