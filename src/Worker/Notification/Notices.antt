-- ===== src/Worker/Notification/Notices.antt =====
-- What the worker records of a delivery.
pub mod Built
use go_video.Prelude.{
  fault, message, duplicate_key, ◌≢◌, ℕ, ◌≡◌, refl, subst, ◌⊎◌, inl, inr, Bool-cases, true, false,
  List, [], ◌∷◌, ◌++◌, Option, none, some, Result, ok, err, Error, any, ◌==◌, ◌||◌, arith, Act,
  ◌>>=◌, is_dup_key, message, duplicate_key, record_not_found, unauthorized, validation, redis_nil,
  fault,
}
use go_video.Prelude.Text.{Text, lit, text_eq, is_empty}
use go_video.Services.Keeps.{
  Keeps-find, Keeps-time_now, keeps_rules, Keeps, Keeps-performs, Keeps-pure, Keeps-raise,
  Keeps-bind, Keeps-attempt,
}
use go_video.Services.Ensures.{
  ensures_weaken, Ensures, ensures_bind, ensures_pure, ensures_keeps, ensures_if, ensures_raise,
  ensures_attempt, continue_ok,
}
use go_video.Services.Platform.{Platform}
use go_video.Entities.{Notification, LikeEvent, CommentEvent, SocialEvent, State}
use go_video.Entities.Schemas.{Cache}
use go_video.Worker.Notification.{
  create, unless_own, build_follow_notification, get_video_author_id, build_like_notification,
  build_comment_notification, build_notification, push_to_hub, after_publish, publish_via,
  publish_notification, after_create, deliver, process, push_channel,
}
use go_video.Worker.Notification.Notices.Built.{IsForOther, IsBuilt, build-Built}

-- The rows gained the notification under a key, with a time; or there was one of the same event, and they stay.
abbrev pub IsRecorded : Notification → List Notification → List Notification → Type 0
IsRecorded n before after =
    ((k t : ℕ) × (after ≡ before ++ record n { id = k; created_at = t } ∷ [])
      × (any (λ (r : Notification). text_eq n.event_id r.event_id) before ≡ false))
    ⊎ ((after ≡ before) × (any (λ (r : Notification). text_eq n.event_id r.event_id) before ≡ true))

abbrev pub IsDelivered : Option Notification → List Notification → List Notification → Type 0
IsDelivered none before after = after ≡ before
IsDelivered (some n) before after = IsRecorded n before after

-- What an INSERT did.
abbrev IsCreated : Notification → List Notification → Result ℕ → List Notification → Type 0
IsCreated n before (ok k) after =
    (after ≡ before ++ record n { id = k } ∷ [])
    × (any (λ (r : Notification). text_eq n.event_id r.event_id) before ≡ false)
IsCreated n before (err e) after =
    (after ≡ before)
    × (is_dup_key e ≡ true
        → any (λ (r : Notification). text_eq n.event_id r.event_id) before ≡ true)

no_dup : (x : Error) → x ≢ duplicate_key → is_dup_key x ≢ true
no_dup duplicate_key other dup = other refl
no_dup record_not_found other dup = cc dup
no_dup unauthorized other dup = cc dup
no_dup validation other dup = cc dup
no_dup redis_nil other dup = cc dup
no_dup (message t) other dup = cc dup
no_dup (fault k) other dup = cc dup

module _ {W : Type 0} (p : Platform W) (rows : List Notification) where
  abbrev Rows : State → Type 0
  Rows s = s.notifications ≡ rows

  module _ (decode_like : Text → Option LikeEvent) (decode_comment : Text → Option CommentEvent)
      (decode_social : Text → Option SocialEvent) (cache : Option (Cache p.view))
      (hub : Option (ℕ → Notification → Act W (Unit {0})))
      (quiet : (push : ℕ → Notification → Act W (Unit {0})) (u : ℕ) (n : Notification)
          (kept : List Notification)
        → hub ≡ some push
        → Keeps p.view (λ s. s.notifications ≡ kept) (push u n)) where
    quiet_push :
        (h : Option (ℕ → Notification → Act W (Unit {0}))) (n : Notification)
        (kept : List Notification)
        → hub ≡ h
        → Keeps p.view
            (λ s. s.notifications ≡ kept)
            (push_to_hub p decode_like decode_comment decode_social cache hub h n)
    unfolding push_to_hub
    quiet_push none n kept e = Keeps-pure tt
    quiet_push (some push) n kept e = quiet push n.recipient_id n kept e

    quiet_after :
        (n : Notification) (kept : List Notification) (r : Result (Unit {0}))
        → Keeps p.view
            (λ s. s.notifications ≡ kept)
            (after_publish p decode_like decode_comment decode_social cache hub n r)
    unfolding after_publish
    quiet_after n kept (ok a) = Keeps-pure tt
    quiet_after n kept (err e) = Keeps-bind _ _ (quiet_push hub n kept refl) (λ _. Keeps-raise e)

    quiet_publish :
        (c : Option (Cache p.view)) (n : Notification) (kept : List Notification)
        → Keeps p.view
            (λ s. s.notifications ≡ kept)
            (publish_via p decode_like decode_comment decode_social cache hub c n)
    unfolding publish_via
    quiet_publish none n kept = quiet_push hub n kept refl
    quiet_publish (some c) n kept =
        Keeps-bind _ _
          (Keeps-attempt _
            (Keeps-performs _ _ (c.publish_lem push_channel _) (λ w a s h set. rw set h)))
          (quiet_after n kept)

    after_create-IsRecorded :
        (n : Notification) (r : Result ℕ)
        → Ensures p.view
            (λ s. IsCreated n rows r s.notifications)
            (after_create p decode_like decode_comment decode_social cache hub n r)
            (λ _ s. IsRecorded n rows s.notifications)
    unfolding after_create publish_notification
    after_create-IsRecorded n (ok k) =
        ensures_bind (λ _ (s : State). IsCreated n rows (ok k) s.notifications) _ _
          (ensures_keeps _ (record {
            at = λ w (h, new). ((Keeps-attempt _ (quiet_publish cache _ _)).at w h, new);
          }))
          (λ _. ensures_pure tt (λ s h. inl (k, n.created_at, h.0, h.1)))
    after_create-IsRecorded n (err e) =
        ensures_if (is_dup_key e) _ _ (λ dup. ensures_pure tt (λ s h. inr (h.0, h.1 dup)))
          (λ _. ensures_raise e)

    create-IsRecorded :
        (n : Notification)
        → Ensures p.view Rows
            (create p decode_like decode_comment decode_social cache hub n)
            (λ _ s. IsRecorded n rows s.notifications)
    unfolding create
    create-IsRecorded n =
        ensures_bind (λ r (s : State). IsCreated n rows r s.notifications) _ _
          (ensures_attempt _ created) (after_create-IsRecorded n)
      where
        created :
            (w : W)
            → Rows (p.view w)
            → IsCreated n rows
                (p.notifications.create n w).0
                (p.view (p.notifications.create n w).1).notifications
        created w h = elim (p.notifications.create_lem n w) [
          | inl (k, e, _, _, new, set) ↦ rw (e, set) (rw h refl, rw h at new)
          | inr (inl (e, old, set)) ↦ rw (e, set) (h, λ _. rw h at old)
          | inr (inr (x, e, other, set)) ↦ rw (e, set) (h, λ dup. absurd (no_dup x other dup))
        ]

    deliver-IsDelivered :
        (o : Option Notification)
        → Ensures p.view Rows
            (deliver p decode_like decode_comment decode_social cache hub o)
            (λ _ s. IsDelivered o rows s.notifications)
    unfolding deliver
    deliver-IsDelivered none = ensures_pure tt (λ s h. h)
    deliver-IsDelivered (some n) =
        ensures_bind (λ _. Rows) _ _ (ensures_keeps _ (Keeps-time_now p))
          (λ now.
            ensures_weaken _ (λ s h. h) (λ _ s h. timed now h)
              (create-IsRecorded (record n { created_at = now })))
      where
        timed :
            (now : ℕ) {after : List Notification}
            → IsRecorded (record n { created_at = now }) rows after
            → IsRecorded n rows after
        timed now (inl (k, t, new, first)) = inl (k, t, new, first)
        timed now (inr old) = inr old

module _ {W : Type 0} (p : Platform W) (decode_like : Text → Option LikeEvent)
    (decode_comment : Text → Option CommentEvent) (decode_social : Text → Option SocialEvent)
    (cache : Option (Cache p.view)) (hub : Option (ℕ → Notification → Act W (Unit {0}))) where
  -- Where the hub touches no row: of a delivery that the worker has handled, it built at most one
  -- notification, of an event with an id and to an account, which only for a follow may be the
  -- sender. It stands in the table as the one new row, or a row of that event was there and the
  -- table is as before; where nothing was built, the table is as before.
  pub process_records :
      (key body : Text) (w : W)
      → ((push : ℕ → Notification → Act W (Unit {0})) (u : ℕ) (n : Notification)
            (kept : List Notification)
          → hub ≡ some push
          → Keeps p.view (λ s. s.notifications ≡ kept) (push u n))
      → (process p decode_like decode_comment decode_social cache hub key body w).0 ≡ ok tt
      → (o : Option Notification) × ((build_notification p decode_like decode_comment decode_social
            cache hub key body w).0
          ≡ ok o)
        × IsBuilt key o
        × IsDelivered o
            (p.view w).notifications
            (p.view
              (process p decode_like decode_comment decode_social cache hub key body
                w).1).notifications
  unfolding process ◌>>=◌
  process_records key body w quiet done =
      let rows = (p.view w).notifications in
      let b = build_notification p decode_like decode_comment decode_social cache hub key body w in
      let (o, e, ran, same) = continue_ok b.0 _ b.1 tt done in
      let built =
        (build-Built p rows decode_like decode_comment decode_social cache hub key body).at w refl o
          e in
      (
        o,
        e,
        built.1,
        rw same (
            (deliver-IsDelivered p rows decode_like decode_comment decode_social cache hub quiet
                o).at
              b.1 built.0 tt ran),
      )
