-- ===== src/Simulation/Samples.antt =====
-- Rows for the tests.
use go_video.Prelude.{ℕ, [], ◌∷◌, none}
use go_video.Prelude.Int.{pos}
use go_video.Prelude.Text.{lit}
use go_video.Entities.{Comment, Account, Social, Video, Like, OutboxMsg, pending}
use go_video.Simulation.World.{World, state_of}
use go_video.Simulation.Services.{empty_state}

abbrev pub sample_video : Video
sample_video = record {
  id = 7;
  author_id = 1;
  username = lit "ada";
  title = lit "go";
  description = [];
  play_url = lit "p";
  cover_url = lit "c";
  create_time = 5000;
  likes_count = pos 0;
  popularity = pos 0;
}

abbrev pub sample_like : Like
sample_like = record { id = 1; video_id = 7; account_id = 2; created_at = 100000 }

-- One video that nobody likes yet.
abbrev pub one_video : World
one_video = (record empty_state { videos = sample_video ∷ [] }, [])

-- One video with one like, on its counter.
abbrev pub one_like : World
one_like = (
  record empty_state {
    videos = record sample_video { likes_count = pos 1; popularity = pos 1 } ∷ [];
    likes = sample_like ∷ [];
  },
  [],
)

abbrev pub sample_msg : OutboxMsg
sample_msg = record {
  id = 3;
  video_id = 7;
  event_type = lit "timeline";
  create_time = 5000;
  status = pending;
  retry_count = 0;
  last_error = [];
  updated_at = 6000;
  published_at = none;
}

-- One outbox message that waits.
abbrev pub one_message : World
one_message = (record empty_state { outbox = sample_msg ∷ [] }, [])

abbrev pub sample_account : ℕ → Account
sample_account id = record {
  id = id;
  username = lit "u";
  password = [];
  token = [];
  refresh_token = [];
  avatar_url = [];
  bio = [];
}

-- Two accounts, neither of which follows the other.
abbrev pub two_accounts : World
two_accounts = (record empty_state { accounts = sample_account 2 ∷ sample_account 3 ∷ [] }, [])

abbrev pub sample_follow : Social
sample_follow = record { id = 1; follower_id = 2; vlogger_id = 3 }

-- The first follows the second.
abbrev pub one_follow : World
one_follow = (record (state_of two_accounts) { socials = sample_follow ∷ [] }, [])

abbrev pub sample_comment : Comment
sample_comment = record {
  id = 4;
  event_id = lit "4f";
  username = lit "ada";
  video_id = 7;
  author_id = 2;
  content = lit "hi";
  created_at = 100000;
}

-- One video with one comment.
abbrev pub one_comment : World
one_comment = (record (state_of one_video) { comments = sample_comment ∷ [] }, [])
