-- ===== src/Entities.antt =====
-- The rows and messages of the program: the `entity.go` files under internal/api and the event
-- structs under internal/middleware/rabbitmq. A `uint` or a time is a natural number (times count
-- milliseconds, and 0 is Go's zero time), an `int64` counter is a signed integer, a string is its bytes.
pub mod Schemas
use go_video.Prelude.{ℕ, Bool, List, Option}
use go_video.Prelude.Int.{ℤ}
use go_video.Prelude.Text.{Text}
use go_video.Services.Redis.{Leases, Strings, SortedSets, Timeline}

pub record Video : Type 0 where
  pub id : ℕ
  pub author_id : ℕ
  pub username : Text
  pub title : Text
  pub description : Text
  pub play_url : Text
  pub cover_url : Text
  pub create_time : ℕ
  pub likes_count : ℤ
  pub popularity : ℤ

-- OutboxStatusPending and its three companions.
pub data OutboxStatus : Type 0 where
  pending processing published failed : OutboxStatus

pub record OutboxMsg : Type 0 where
  pub id : ℕ
  pub video_id : ℕ
  pub event_type : Text
  pub create_time : ℕ
  pub status : OutboxStatus
  pub retry_count : ℕ
  pub last_error : Text
  pub updated_at : ℕ
  pub published_at : Option ℕ

pub record Like : Type 0 where
  pub id : ℕ
  pub video_id : ℕ
  pub account_id : ℕ
  pub created_at : ℕ

pub record Comment : Type 0 where
  pub id : ℕ
  pub event_id : Text
  pub username : Text
  pub video_id : ℕ
  pub author_id : ℕ
  pub content : Text
  pub created_at : ℕ

pub record Social : Type 0 where
  pub id : ℕ
  pub follower_id : ℕ
  pub vlogger_id : ℕ

pub record Account : Type 0 where
  pub id : ℕ
  pub username : Text
  pub password : Text
  pub token : Text
  pub refresh_token : Text
  pub avatar_url : Text
  pub bio : Text

pub record Message : Type 0 where
  pub id : ℕ
  pub from_id : ℕ
  pub to_id : ℕ
  pub content : Text
  pub is_read : Bool
  pub created_at : ℕ

pub record Tag : Type 0 where
  pub id : ℕ
  pub name : Text

pub record VideoTag : Type 0 where
  pub id : ℕ
  pub video_id : ℕ
  pub tag_id : ℕ

pub record Notification : Type 0 where
  pub id : ℕ
  pub event_id : Text
  pub recipient_id : ℕ
  pub sender_id : ℕ
  pub kind : Text
  pub target_id : ℕ
  pub content : Text
  pub is_read : Bool
  pub created_at : ℕ

pub record PushMessage : Type 0 where
  pub recipient_id : ℕ
  pub notification : Notification

pub record LikeEvent : Type 0 where
  pub event_id : Text
  pub action : Text
  pub user_id : ℕ
  pub video_id : ℕ
  pub occurred_at : ℕ

pub record CommentEvent : Type 0 where
  pub event_id : Text
  pub action : Text
  pub comment_id : ℕ
  pub username : Text
  pub video_id : ℕ
  pub author_id : ℕ
  pub content : Text
  pub occurred_at : ℕ

pub record SocialEvent : Type 0 where
  pub event_id : Text
  pub action : Text
  pub follower_id : ℕ
  pub vlogger_id : ℕ
  pub occurred_at : ℕ

pub record PopularityEvent : Type 0 where
  pub event_id : Text
  pub action : Text
  pub video_id : ℕ
  pub change : ℤ
  pub occurred_at : ℕ

pub record TimelineEvent : Type 0 where
  pub event_id : Text
  pub action : Text
  pub video_id : ℕ
  pub create_time : ℕ
  pub occurred_at : ℕ

-- A publication that the client took without an error: its exchange, its routing key and its payload.
abbrev pub Sent : Type 0 → Type 0
Sent E = Text × Text × E

-- What the services hold of the program's data: the tables, the messages of each exchange in the
-- order in which they were published, and the entries of redis.
pub record State : Type 0 where
  pub videos : List Video
  pub outbox : List OutboxMsg
  pub likes : List Like
  pub comments : List Comment
  pub socials : List Social
  pub accounts : List Account
  pub like_publications : List (Sent LikeEvent)
  pub comment_publications : List (Sent CommentEvent)
  pub social_publications : List (Sent SocialEvent)
  pub popularity_publications : List (Sent PopularityEvent)
  pub timeline_publications : List (Sent TimelineEvent)
  pub strings : Strings
  pub leases : Leases
  pub sorted_sets : SortedSets
  pub messages : List Message
  pub tags : List Tag
  pub video_tags : List VideoTag
  pub notifications : List Notification
  pub timeline : Timeline
  pub pushes : List (Text × PushMessage)
