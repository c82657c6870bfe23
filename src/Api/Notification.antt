-- ===== src/Api/Notification.antt =====
-- internal/api/notification: the hub of entity.go and handler.go, and what the subscriber of
-- internal/worker/notification_subscriber.go hands to it. A Go channel is known by a number; its
-- buffer holds twenty notifications. A send to a closed channel panics: `none`.
pub mod Safety
pub mod Delivery
pub mod Inbox
mod Tests
use go_video.Prelude.{
  ℕ, ◌+◌, ltb, ◌==◌, Bool, true, false, Option, none, some, List, [], ◌∷◌, ◌++◌, length, drop,
  if◌then◌else◌,
}
use go_video.Entities.{Notification, PushMessage}

pub record SseHub : Type 0 where
  -- The channels of each user, in the order of their subscription.
  pub clients : ℕ → List ℕ
  pub buffer : ℕ → List Notification
  pub closed : ℕ → Bool
  -- The next channel that make makes.
  pub next : ℕ

abbrev pub buffer_size : ℕ
buffer_size = 20

abbrev pub update {ℓ} : {A : Type ℓ} → (ℕ → A) → ℕ → A → ℕ → A
update f i a j = if j == i then a else f j

abbrev pub new_hub : SseHub
new_hub = record { clients = λ u. []; buffer = λ c. []; closed = λ c. false; next = 0 }

pub subscribe : ℕ → SseHub → ℕ × SseHub
subscribe user h = (
  h.next,
  record h { clients = update h.clients user (h.clients user ++ h.next ∷ []); next = h.next + 1 },
)

-- The first occurrence goes.
abbrev pub remove_first : ℕ → List ℕ → List ℕ
remove_first c [] = []
remove_first c (d ∷ ds) = if d == c then ds else d ∷ remove_first c ds

abbrev pub listed : ℕ → List ℕ → Bool
listed c [] = false
listed c (d ∷ ds) = if d == c then true else listed c ds

pub unsubscribe : ℕ → ℕ → SseHub → SseHub
unsubscribe user c h =
    if listed c (h.clients user)
    then record h {
      clients = update h.clients user (remove_first c (h.clients user));
      closed = update h.closed c true;
    }
    else h

-- `select { case ch <- n: default: }`: a full buffer stays as it is.
abbrev pub offer : Notification → List Notification → List Notification
offer n b = if ltb (length b) buffer_size then b ++ n ∷ [] else b

pub send : ℕ → Notification → SseHub → Option SseHub
send c n h =
    if h.closed c
    then none
    else some (record h { buffer = update h.buffer c (offer n (h.buffer c)) })

abbrev pub and_then : Option SseHub → (SseHub → Option SseHub) → Option SseHub
and_then none f = none
and_then (some h) f = f h

-- The loop of Push over the channels that it read under the lock.
pub send_each : List ℕ → Notification → SseHub → Option SseHub
send_each [] n h = some h
send_each (c ∷ cs) n h = and_then (send c n h) (send_each cs n)

-- SSEHub.Push, where no other call comes between the read of the channels and the last send.
pub push : ℕ → Notification → SseHub → Option SseHub
unfolding send_each
push user n h = send_each (h.clients user) n h

-- The handler of a connection takes what waits in its channel.
pub receive : ℕ → SseHub → SseHub
receive c h = record h { buffer = update h.buffer c (drop 1 (h.buffer c)) }

-- One message of the subscription; `none` is one that cannot be decoded.
pub push_received : Option PushMessage → SseHub → Option SseHub
push_received none h = some h
push_received (some m) h =
    if m.recipient_id == 0 then some h else push m.recipient_id m.notification h
