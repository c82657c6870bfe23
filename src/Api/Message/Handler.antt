-- ===== src/Api/Message/Handler.antt =====
-- internal/api/message/handler.go. The body of Send is the receiver and the text, that of List the
-- other account.
use go_video.Prelude.{
  false, ℕ, Option, List, Result, message, Act, pure, attempt, ◌||◌, ◌>>=◌, ◌==◌,
}
use go_video.Prelude.Text.{Text, is_empty, trim_space}
use go_video.Services.Platform.{Platform}
use go_video.Entities.{Message}
use go_video.Api.Http.{Response, failed, get_account_id, respond_classified, or_return, unless_bad}
use go_video.Api.Message.{send, list}

module _ {W : Type 0} (p : Platform W) where
  -- MessageHandler.Send, but for the body of its answer
  abbrev pub handle_send : Option ℕ → Result (ℕ × Text) → Act W (Response (Unit {0}))
  handle_send context body = or_return (failed 401) (get_account_id context) (λ from_id.
      or_return (failed 400) body (λ (to_id, content).
        unless_bad (to_id == 0 || is_empty (trim_space content))
          (message "to_id and content are required")
          (do
            result ← attempt (
                send p (record {
                  id = 0;
                  from_id = from_id;
                  to_id = to_id;
                  content = content;
                  is_read = false;
                  created_at = 0;
                }))
            pure (respond_classified result))))

  -- MessageHandler.List
  abbrev pub handle_list : Option ℕ → Result ℕ → Act W (Response (List Message))
  handle_list context body = or_return (failed 401) (get_account_id context) (λ user_id.
      or_return (failed 400) body (λ peer_id.
        unless_bad (peer_id == 0) (message "peer_id is required")
          (do result ← attempt (list p user_id peer_id); pure (respond_classified result))))
