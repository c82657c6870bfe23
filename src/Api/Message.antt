-- ===== src/Api/Message.antt =====
-- internal/api/message: repo.go and service.go.
pub mod Handler
use go_video.Prelude.{
  ℕ, Bool, ◌&&◌, ◌||◌, ◌==◌, leb, List, Act, pure, raise, message, ◌>>=◌, ◌>>◌, if◌then◌else◌,
}
use go_video.Prelude.Text.{is_empty, trim_space}
use go_video.Services.Platform.{Platform, time_now}
use go_video.Entities.{Message}

-- (from_id = ? and to_id = ?) or (from_id = ? and to_id = ?)
abbrev pub between : ℕ → ℕ → Message → Bool
between user_id peer_id m =
    (m.from_id == user_id && m.to_id == peer_id) || (m.from_id == peer_id && m.to_id == user_id)

module _ {W : Type 0} (p : Platform W) where
  abbrev pub create_message : Message → Act W (Unit {0})
  create_message m = do p.messages.create m; pure tt

  -- ORDER BY created_at desc
  abbrev pub list_messages : ℕ → ℕ → ℕ → Act W (List Message)
  list_messages user_id peer_id limit =
      p.messages.find_ordered (between user_id peer_id) (λ m n. leb n.created_at m.created_at) limit

  -- MessageService.Send
  abbrev pub send : Message → Act W (Unit {0})
  send m = if is_empty (trim_space m.content) then raise (message "content is required") else do
    now ← time_now p
    create_message (record m { content = trim_space m.content; created_at = now })

  -- MessageService.List
  abbrev pub list : ℕ → ℕ → Act W (List Message)
  list user_id peer_id = list_messages user_id peer_id 50
