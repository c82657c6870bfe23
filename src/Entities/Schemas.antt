-- ===== src/Entities/Schemas.antt =====
-- The keys and unique indexes that the gorm tags of the entities declare, and where each table and
-- each exchange stands in the state.
use go_video.Prelude.{false, List, ◌&&◌, ◌==◌}
use go_video.Prelude.Text.{Text, text_eq}
use go_video.Services.Sql.{Lens, Schema}
use go_video.Services.Redis.{Strings, SortedSets, Timeline, Redis}
use go_video.Entities.{
  Leases, Video, OutboxMsg, Like, Comment, Social, Account, LikeEvent, CommentEvent, SocialEvent,
  PopularityEvent, TimelineEvent, Message, Tag, VideoTag, Notification, PushMessage, Sent, State,
}

abbrev pub video_schema : Schema Video
video_schema = record {
  key = λ r. r.id;
  with_key = λ k r. record r { id = k };
  clash = λ r s. false;
}

abbrev pub outbox_schema : Schema OutboxMsg
outbox_schema = record {
  key = λ r. r.id;
  with_key = λ k r. record r { id = k };
  clash = λ r s. false;
}

-- idx_likes_video_account
abbrev pub like_schema : Schema Like
like_schema = record {
  key = λ r. r.id;
  with_key = λ k r. record r { id = k };
  clash = λ r s. r.video_id == s.video_id && r.account_id == s.account_id;
}

-- event_id is a unique index
abbrev pub comment_schema : Schema Comment
comment_schema = record {
  key = λ r. r.id;
  with_key = λ k r. record r { id = k };
  clash = λ r s. text_eq r.event_id s.event_id;
}

-- idx_socials_follower_vlogger
abbrev pub social_schema : Schema Social
social_schema = record {
  key = λ r. r.id;
  with_key = λ k r. record r { id = k };
  clash = λ r s. r.follower_id == s.follower_id && r.vlogger_id == s.vlogger_id;
}

-- username is unique
abbrev pub account_schema : Schema Account
account_schema = record {
  key = λ r. r.id;
  with_key = λ k r. record r { id = k };
  clash = λ r s. text_eq r.username s.username;
}

abbrev pub videos_at : Lens State (List Video)
videos_at = record { get = λ s. s.videos; set = λ x s. record s { videos = x } }

abbrev pub outbox_at : Lens State (List OutboxMsg)
outbox_at = record { get = λ s. s.outbox; set = λ x s. record s { outbox = x } }

abbrev pub likes_at : Lens State (List Like)
likes_at = record { get = λ s. s.likes; set = λ x s. record s { likes = x } }

abbrev pub comments_at : Lens State (List Comment)
comments_at = record { get = λ s. s.comments; set = λ x s. record s { comments = x } }

abbrev pub socials_at : Lens State (List Social)
socials_at = record { get = λ s. s.socials; set = λ x s. record s { socials = x } }

abbrev pub accounts_at : Lens State (List Account)
accounts_at = record { get = λ s. s.accounts; set = λ x s. record s { accounts = x } }

abbrev pub like_publications_at : Lens State (List (Sent LikeEvent))
like_publications_at = record {
  get = λ s. s.like_publications;
  set = λ x s. record s { like_publications = x };
}

abbrev pub comment_publications_at : Lens State (List (Sent CommentEvent))
comment_publications_at = record {
  get = λ s. s.comment_publications;
  set = λ x s. record s { comment_publications = x };
}

abbrev pub social_publications_at : Lens State (List (Sent SocialEvent))
social_publications_at = record {
  get = λ s. s.social_publications;
  set = λ x s. record s { social_publications = x };
}

abbrev pub popularity_publications_at : Lens State (List (Sent PopularityEvent))
popularity_publications_at = record {
  get = λ s. s.popularity_publications;
  set = λ x s. record s { popularity_publications = x };
}

abbrev pub timeline_publications_at : Lens State (List (Sent TimelineEvent))
timeline_publications_at = record {
  get = λ s. s.timeline_publications;
  set = λ x s. record s { timeline_publications = x };
}

abbrev pub leases_at : Lens State Leases
leases_at = record { get = λ s. s.leases; set = λ x s. record s { leases = x } }

abbrev pub strings_at : Lens State Strings
strings_at = record { get = λ s. s.strings; set = λ x s. record s { strings = x } }

abbrev pub sorted_sets_at : Lens State SortedSets
sorted_sets_at = record { get = λ s. s.sorted_sets; set = λ x s. record s { sorted_sets = x } }

abbrev pub message_schema : Schema Message
message_schema = record {
  key = λ r. r.id;
  with_key = λ k r. record r { id = k };
  clash = λ r s. false;
}

-- name is a unique index
abbrev pub tag_schema : Schema Tag
tag_schema = record {
  key = λ r. r.id;
  with_key = λ k r. record r { id = k };
  clash = λ r s. text_eq r.name s.name;
}

abbrev pub video_tag_schema : Schema VideoTag
video_tag_schema = record {
  key = λ r. r.id;
  with_key = λ k r. record r { id = k };
  clash = λ r s. false;
}

-- event_id is a unique index
abbrev pub notification_schema : Schema Notification
notification_schema = record {
  key = λ r. r.id;
  with_key = λ k r. record r { id = k };
  clash = λ r s. text_eq r.event_id s.event_id;
}

abbrev pub messages_at : Lens State (List Message)
messages_at = record { get = λ s. s.messages; set = λ x s. record s { messages = x } }

abbrev pub tags_at : Lens State (List Tag)
tags_at = record { get = λ s. s.tags; set = λ x s. record s { tags = x } }

abbrev pub video_tags_at : Lens State (List VideoTag)
video_tags_at = record { get = λ s. s.video_tags; set = λ x s. record s { video_tags = x } }

abbrev pub notifications_at : Lens State (List Notification)
notifications_at = record {
  get = λ s. s.notifications;
  set = λ x s. record s { notifications = x };
}

abbrev pub timeline_at : Lens State Timeline
timeline_at = record { get = λ s. s.timeline; set = λ x s. record s { timeline = x } }

abbrev pub pushes_at : Lens State (List (Text × PushMessage))
pushes_at = record { get = λ s. s.pushes; set = λ x s. record s { pushes = x } }

-- The program's redis.
abbrev pub Cache : {W : Type 0} → (W → State) → Type 0
Cache view = Redis view strings_at leases_at sorted_sets_at timeline_at pushes_at
