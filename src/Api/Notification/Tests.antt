-- ===== src/Api/Notification/Tests.antt =====
-- A user who connects, and a push.
use go_video.Prelude.{
  err, Error, ◌⊎◌, not, ◌&&◌, count, ◌>>=◌, ℕ, ◌≡◌, ◌≤◌, refl, none, some, [], ◌∷◌, length,
}
use go_video.Prelude.Text.{lit}
use go_video.Entities.{Notification}
use go_video.Worker.Notification.{notice}
use go_video.Api.Notification.{SseHub, new_hub, subscribe, unsubscribe, send_each, push}
use go_video.Simulation.World.{World, state_of}
use go_video.Simulation.Services.{empty_state, memory_platform}
use go_video.Api.Notification.Inbox.{KeepsOthers, is_meant, read_now, mark_read, mark_read_done}
use go_video.Api.Notification.Delivery.{Offered, Step, Reach, push_delivers, push_race}

abbrev welcome : Notification
welcome = notice (lit "4f") 2 3 (lit "like") 7 (lit "hi")

abbrev connected : SseHub
connected = (subscribe 2 new_hub).1

push_delivers_example :
    (h' : SseHub) × (push 2 welcome connected ≡ some h')
    × Offered welcome connected (connected.clients 2) h'
    × ((c : ℕ) → length (h'.buffer c) ≤ 20)
push_delivers_example = push_delivers 2 welcome (Reach.later Reach.start (Step.subscribes 2))

push_race_example : send_each (connected.clients 2) welcome (unsubscribe 2 0 connected) ≡ none
unfolding subscribe
push_race_example = push_race connected 2 0 welcome only
  where
    only : connected.clients 2 ≡ 0 ∷ []
    only = refl

-- A notification that the user 2 has not read.
abbrev one_unread : World
one_unread = (record empty_state { notifications = welcome ∷ [] }, [])

marks :
    (state_of (mark_read memory_platform 2 none one_unread).1).notifications ≡ read_now welcome ∷ []
unfolding mark_read ◌>>=◌
marks = refl

mark_read_done_example :
    KeepsOthers 2
      (welcome ∷ [])
      (state_of (mark_read memory_platform 2 none one_unread).1).notifications
    × ((count
            (λ n. is_meant 2 none n && not n.is_read)
            (state_of (mark_read memory_platform 2 none one_unread).1).notifications
          ≡ 0)
        ⊎ ((e : Error) × ((memory_platform.notifications.update
                (is_meant 2 none)
                read_now
                one_unread).0
              ≡ err e)))
mark_read_done_example = mark_read_done memory_platform 2 none one_unread
