-- ===== src/Api/Notification/Delivery.antt =====
-- A push to a hub that any calls may have led to.
use go_video.Prelude.{
  ℕ, ◌≤◌, ◌≡◌, refl, subst, ◌∙◌, ◌==◌, ==_iff, Bool-cases, true, false, Option, none, some, List,
  [], ◌∷◌, length, All, inl, inr, arith, if◌then◌else◌,
}
use go_video.Entities.{Notification, PushMessage}
use go_video.Api.Notification.{
  SseHub, update, new_hub, subscribe, listed, unsubscribe, offer, send, send_each, push, receive,
  push_received,
}
use go_video.Api.Notification.Safety.{
  IsSound, Distinct, new_hub-IsSound, receive-IsSound, sent-IsSound, subscribe-IsSound,
  unsubscribe-IsSound,
}

-- The notification was offered to the channels of the list, and to no other.
abbrev pub Offered : Notification → SseHub → List ℕ → SseHub → Type 0
Offered n h cs h' =
    (c : ℕ) → h'.buffer c ≡ (if listed c cs then offer n (h.buffer c) else h.buffer c)

offered_once :
    (n : Notification) (buffer : ℕ → List Notification) (c d : ℕ) (cs : List ℕ)
    → listed c cs ≡ false
    → (if listed d cs
        then offer n (update buffer c (offer n (buffer c)) d)
        else update buffer c (offer n (buffer c)) d)
      ≡ (if listed d (c ∷ cs) then offer n (buffer d) else buffer d)
offered_once n buffer c d cs new = elim (Bool-cases (c == d)) [
  | inl same ↦ rw (← (==_iff c d).0 same, new, (==_iff c c).1 refl) refl
  | inr other ↦ let turned : (d == c) ≡ false = ground arith in rw (other, turned) refl
]

All-listed : (P : ℕ → Type 0) (cs : List ℕ) → ((c : ℕ) → listed c cs ≡ true → P c) → All P cs
All-listed P [] f = tt
All-listed P (c ∷ cs) f = (f c (ground arith), All-listed P cs (λ d e. f d (ground arith)))

-- The buffers after the sends to open, distinct channels.
sends :
    (n : Notification) (cs : List ℕ) (h : SseHub)
    → IsSound h
    → Distinct cs
    → All (λ c. h.closed c ≡ false) cs
    → (h' : SseHub) × (send_each cs n h ≡ some h') × IsSound h' × Offered n h cs h'
unfolding send_each send
sends n [] h sound distinct opened = (h, refl, sound, λ c. refl)
sends n (c ∷ cs) h sound distinct opened =
    let h1 : SseHub = record h { buffer = update h.buffer c (offer n (h.buffer c)) } in
    let (h', run, sound', buffers) = sends n cs h1 (sent-IsSound h sound c n) distinct.1 opened.1 in
    (h', rw opened.0 run, sound', λ d. buffers d ∙ offered_once n h.buffer c d cs distinct.0)

-- The calls on a hub, one at a time: of a connection that comes, goes or reads, of the worker, and
-- of the subscription to redis.
pub data Step (h : SseHub) : SseHub → Type 0 where
  subscribes : (user : ℕ) → Step h (subscribe user h).1
  unsubscribes : (user c : ℕ) → Step h (unsubscribe user c h)
  receives : (c : ℕ) → Step h (receive c h)
  pushes : (user : ℕ) (n : Notification) {h' : SseHub} → push user n h ≡ some h' → Step h h'
  hears : (m : Option PushMessage) {h' : SseHub} → push_received m h ≡ some h' → Step h h'

pub data Reach : SseHub → Type 0 where
  start : Reach new_hub
  later : {h h' : SseHub} → Reach h → Step h h' → Reach h'

push-IsSound :
    (user : ℕ) (n : Notification) (h : SseHub)
    → IsSound h
    → (h' : SseHub) × (push user n h ≡ some h') × IsSound h' × Offered n h (h.clients user) h'
unfolding push
push-IsSound user n h sound =
    sends n (h.clients user) h sound (sound.once user)
      (All-listed (λ c. h.closed c ≡ false) (h.clients user) (sound.open_if_listed user))

after_push :
    (user : ℕ) (n : Notification) {h h' : SseHub} → IsSound h → push user n h ≡ some h' → IsSound h'
after_push user n {h} {h'} sound run =
    let (k, run', sound', _) = push-IsSound user n h sound in subst IsSound (cc (run, run')) sound'

Step-IsSound : {h h' : SseHub} → Step h h' → IsSound h → IsSound h'
unfolding push_received
Step-IsSound {h} (subscribes user) sound = subscribe-IsSound h sound user
Step-IsSound {h} (unsubscribes user c) sound = unsubscribe-IsSound h sound user c
Step-IsSound {h} (receives c) sound = receive-IsSound h sound c
Step-IsSound (pushes user n run) sound = after_push user n sound run
Step-IsSound {h} {h'} (hears none run) sound = subst IsSound (cc run) sound
Step-IsSound {h} {h'} (hears (some m) run) sound = elim (Bool-cases (m.recipient_id == 0)) [
  | inl nobody ↦ subst IsSound (cc (rw nobody at run)) sound
  | inr somebody ↦ after_push m.recipient_id m.notification sound (rw somebody at run)
]

Reach-IsSound : {h : SseHub} → Reach h → IsSound h
Reach-IsSound start = new_hub-IsSound
Reach-IsSound (later r s) = Step-IsSound s (Reach-IsSound r)

-- Whatever calls led to a hub, one at a time, a push does not panic: every channel of the user is
-- offered the notification and no other channel is touched, and no buffer holds more than twenty.
pub push_delivers :
    {h : SseHub} (user : ℕ) (n : Notification)
    → Reach h
    → (h' : SseHub) × (push user n h ≡ some h')
      × Offered n h (h.clients user) h'
      × ((c : ℕ) → length (h'.buffer c) ≤ 20)
push_delivers {h} user n r =
    let (h', run, sound, offered) = push-IsSound user n h (Reach-IsSound r) in
    (h', run, offered, sound.bounded)

now_closed :
    (h : SseHub) (user c : ℕ) → h.clients user ≡ c ∷ [] → (unsubscribe user c h).closed c ≡ true
unfolding unsubscribe
now_closed h user c only = rw (only, (==_iff c c).1 refl, (==_iff c c).1 refl) refl

-- If the only connection of a user unsubscribes after a push has read the user's channels and
-- before it sends, the push panics: it sends to the closed channel.
pub push_race :
    (h : SseHub) (user c : ℕ) (n : Notification)
    → h.clients user ≡ c ∷ []
    → send_each (h.clients user) n (unsubscribe user c h) ≡ none
unfolding send_each send
push_race h user c n only = rw (only, now_closed h user c only) refl
