-- ===== src/Worker/Retry.antt =====
-- internal/worker/retry.go: how a consumer settles each delivery. The broker's channel is a
-- parameter: `publish` is PublishWithContext. The calls of Ack and Nack are returned in the order in
-- which they are made, each with the tag of its delivery; their errors are dropped.
pub mod Life
mod Tests
use go_video.Prelude.{
  ℕ, ◌≡◌, Bool, true, false, Option, none, some, List, [], ◌∷◌, ◌++◌, Error, message, Result, ok,
  err, Act, if◌then◌else◌,
}
use go_video.Prelude.Int.{ℤ, pos, ◌+ℤ◌, ltb_ℤ}
use go_video.Prelude.Text.{Text, lit, text_eq}

-- A value of an AMQP header table: the type that the program looks for, or any other.
pub data HeaderValue : Type 0 where
  int32 : ℤ → HeaderValue
  other : Text → HeaderValue

abbrev pub Headers : Type 0
Headers = List (Text × HeaderValue)

pub get_header : Text → Headers → Option HeaderValue
get_header k [] = none
get_header k ((j, v) ∷ m) = if text_eq j k then some v else get_header k m

pub set_header : Text → HeaderValue → Headers → Headers
set_header k v [] = (k, v) ∷ []
set_header k v ((j, w) ∷ m) = if text_eq j k then (k, v) ∷ m else (j, w) ∷ set_header k v m

-- amqp.Publishing
pub record Publishing : Type 0 where
  pub headers : Headers
  pub content_type : Text
  pub content_encoding : Text
  pub delivery_mode : ℕ
  pub priority : ℕ
  pub correlation_id : Text
  pub reply_to : Text
  pub expiration : Text
  pub message_id : Text
  pub timestamp : ℕ
  pub kind : Text
  pub user_id : Text
  pub app_id : Text
  pub body : Text

-- amqp.Delivery, as far as the program reads it
pub record Delivery : Type 0 where
  pub tag : ℕ
  pub exchange : Text
  pub routing_key : Text
  pub headers : Headers
  pub content_type : Text
  pub content_encoding : Text
  pub delivery_mode : ℕ
  pub priority : ℕ
  pub correlation_id : Text
  pub reply_to : Text
  pub expiration : Text
  pub message_id : Text
  pub timestamp : ℕ
  pub kind : Text
  pub user_id : Text
  pub app_id : Text
  pub body : Text

-- Ack(false), Nack(false, false), Nack(false, true)
pub data Settlement : Type 0 where
  ack dead_letter requeue : Settlement

-- Calls of Ack and Nack, the first one first.
abbrev pub Settled : Type 0
Settled = List (ℕ × Settlement)

abbrev pub retry_header : Text
retry_header = lit "x-retry-count"

-- rabbitmq.MaxRetryCount
abbrev pub max_retry_count : ℤ
max_retry_count = pos 3

abbrev pub count_of : Option HeaderValue → ℤ
count_of none = pos 0
count_of (some (int32 n)) = n
count_of (some (other _)) = pos 0

pub get_retry_count : Delivery → ℤ
get_retry_count d = count_of (get_header retry_header d.headers)

-- The publishing of republishForRetry
pub retry_copy : Delivery → ℤ → Publishing
retry_copy d retry_count = record {
  headers = set_header retry_header (int32 retry_count) d.headers;
  content_type = d.content_type;
  content_encoding = d.content_encoding;
  delivery_mode = d.delivery_mode;
  priority = d.priority;
  correlation_id = d.correlation_id;
  reply_to = d.reply_to;
  expiration = d.expiration;
  message_id = d.message_id;
  timestamp = d.timestamp;
  kind = d.kind;
  user_id = d.user_id;
  app_id = d.app_id;
  body = d.body;
}

module _ {W : Type 0} (publish : Text → Text → Publishing → Act W (Unit {0})) where
  pub republish_for_retry : Delivery → ℤ → Act W (Unit {0})
  republish_for_retry d retry_count = publish d.exchange d.routing_key (retry_copy d retry_count)

  abbrev after_republish : Delivery → Result (Unit {0}) × W → Settled × W
  after_republish d (ok _, w) = ((d.tag, ack) ∷ [], w)
  after_republish d (err _, w) = ((d.tag, requeue) ∷ [], w)

  abbrev after_process : Delivery → Result (Unit {0}) × W → Settled × W
  after_process d (ok _, w) = ((d.tag, ack) ∷ [], w)
  after_process d (err _, w) =
      if ltb_ℤ (get_retry_count d) max_retry_count
      then after_republish d (republish_for_retry d (get_retry_count d +ℤ pos 1) w)
      else ((d.tag, dead_letter) ∷ [], w)

  pub handle_main_delivery : (Delivery → Act W (Unit {0})) → Delivery → W → Settled × W
  handle_main_delivery process d w = after_process d (process d w)

  -- What the `select` of the consumer's loop receives.
  pub data Arrival : Type 0 where
    cancelled closed : Arrival
    arrived : Delivery → Arrival

  -- The loop over what arrives; `none` while it still waits for more. With the error that ends it
  -- come the settlements, those of `done` first.
  pub consume_loop :
      (Delivery → Act W (Unit {0})) → Settled → List Arrival → W → Option Error × Settled × W
  consume_loop process done [] w = (none, done, w)
  consume_loop process done (cancelled ∷ rest) w = (some (message "context canceled"), done, w)
  consume_loop process done (closed ∷ rest) w =
      (some (message "deliveries channel closed"), done, w)
  consume_loop process done (arrived d ∷ rest) w =
      let (calls, w') = handle_main_delivery process d w in
      consume_loop process (done ++ calls) rest w'
