-- ===== src/Worker/Notification/Notices/Built.antt =====
-- What the worker builds of a delivery.
use go_video.Prelude.{
  ℕ, ◌≡◌, refl, subst, inl, inr, Bool-cases, true, false, List, Option, none, some, ◌==◌, ◌||◌,
  arith, Act,
}
use go_video.Prelude.Text.{Text, lit, text_eq, is_empty}
use go_video.Services.Keeps.{Keeps-find, keeps_rules, Keeps}
use go_video.Services.Ensures.{Ensures, ensures_bind, ensures_pure, ensures_keeps, ensures_if}
use go_video.Services.Platform.{Platform}
use go_video.Entities.{Notification, LikeEvent, CommentEvent, SocialEvent, State}
use go_video.Entities.Schemas.{Cache}
use go_video.Worker.Notification.{
  unless_own, build_follow_notification, get_video_author_id, build_like_notification,
  build_comment_notification, build_notification,
}

-- A notification of an event with an id, to an account; only a follow may be the account's own.
abbrev pub IsForOther : Text → Notification → Type 0
IsForOther key n =
    (is_empty n.event_id ≡ false)
    × ((n.recipient_id == 0) ≡ false)
    × (text_eq key (lit "social.follow") ≡ false → (n.recipient_id == n.sender_id) ≡ false)

abbrev pub IsBuilt : Text → Option Notification → Type 0
IsBuilt key o = (n : Notification) → o ≡ some n → IsForOther key n

none-IsBuilt : (key : Text) → IsBuilt key none
none-IsBuilt key n e = absurd (cc e)

some_injective : {A : Type 0} {a b : A} → some a ≡ some b → a ≡ b
some_injective e = cc

unless_own-IsBuilt :
    (key : Text) (author sender : ℕ) (n : Notification)
    → is_empty n.event_id ≡ false
    → n.recipient_id ≡ author
    → n.sender_id ≡ sender
    → IsBuilt key (unless_own author sender n)
unless_own-IsBuilt key author sender n named to from m e =
    elim (Bool-cases (author == 0 || author == sender)) [
      | inl own ↦ absurd (cc (rw own at e))
      | inr other ↦
          let same : n ≡ m = some_injective (rw other at e) in
          subst (IsForOther key) same
            (named, ground (arith, to, other), λ f. ground (arith, to, from, other))
    ]

follow-IsBuilt :
    (key : Text) (o : Option SocialEvent)
    → text_eq key (lit "social.follow") ≡ true
    → IsBuilt key (build_follow_notification o)
follow-IsBuilt key none is_follow n e = none-IsBuilt key n e
follow-IsBuilt key (some evt) is_follow n e =
    elim (Bool-cases (is_empty evt.event_id || evt.follower_id == 0 || evt.vlogger_id == 0)) [
      | inl bad ↦ absurd (cc (rw bad at e))
      | inr good ↦
          subst (IsForOther key) (some_injective (rw good at e))
            (ground (arith, good), ground (arith, good), λ f. absurd (cc (f, is_follow)))
    ]

module _ {W : Type 0} (p : Platform W) (rows : List Notification) where
  abbrev pub Rows : State → Type 0
  Rows s = s.notifications ≡ rows

  author-Keeps : (id : ℕ) → Keeps p.view Rows (get_video_author_id p id)
  unfolding get_video_author_id
  author-Keeps id = search (keeps_rules, Keeps-find p.videos)

  abbrev pub Built : Text → Option Notification → State → Type 0
  Built key o s = Rows s × IsBuilt key o

  like-Built :
      (key : Text) (o : Option LikeEvent)
      → Ensures p.view Rows (build_like_notification p o) (Built key)
  unfolding build_like_notification
  like-Built key none = ensures_pure none (λ s h. (h, none-IsBuilt key))
  like-Built key (some evt) =
      ensures_if (is_empty evt.event_id || evt.user_id == 0 || evt.video_id == 0) _ _
        (λ _. ensures_pure none (λ s h. (h, none-IsBuilt key)))
        (λ valid.
          ensures_bind (λ _. Rows) _ _ (ensures_keeps _ (author-Keeps evt.video_id))
            (λ author.
              let named : is_empty evt.event_id ≡ false = ground (arith, valid) in
              ensures_pure _
                (λ s h. (h, unless_own-IsBuilt key author evt.user_id _ named refl refl))))

  comment-Built :
      (key : Text) (o : Option CommentEvent)
      → Ensures p.view Rows (build_comment_notification p o) (Built key)
  unfolding build_comment_notification
  comment-Built key none = ensures_pure none (λ s h. (h, none-IsBuilt key))
  comment-Built key (some evt) =
      ensures_if (is_empty evt.event_id || evt.author_id == 0 || evt.video_id == 0) _ _
        (λ _. ensures_pure none (λ s h. (h, none-IsBuilt key)))
        (λ valid.
          ensures_bind (λ _. Rows) _ _ (ensures_keeps _ (author-Keeps evt.video_id))
            (λ author.
              let named : is_empty evt.event_id ≡ false = ground (arith, valid) in
              ensures_pure _
                (λ s h. (h, unless_own-IsBuilt key author evt.author_id _ named refl refl))))

  module _ (decode_like : Text → Option LikeEvent) (decode_comment : Text → Option CommentEvent)
      (decode_social : Text → Option SocialEvent) (cache : Option (Cache p.view))
      (hub : Option (ℕ → Notification → Act W (Unit {0}))) where
    pub build-Built :
        (key body : Text)
        → Ensures p.view Rows
            (build_notification p decode_like decode_comment decode_social cache hub key body)
            (Built key)
    unfolding build_notification
    build-Built key body =
        ensures_if (is_empty body) _ _ (λ _. ensures_pure none (λ s h. (h, none-IsBuilt key)))
          (λ _.
            ensures_if (text_eq key (lit "like.like")) _ _ (λ _. like-Built key (decode_like body))
              (λ _.
                ensures_if (text_eq key (lit "comment.publish")) _ _
                  (λ _. comment-Built key (decode_comment body))
                  (λ _.
                    ensures_if (text_eq key (lit "social.follow")) _ _
                      (λ is_follow.
                        ensures_pure _
                          (λ s h. (h, follow-IsBuilt key (decode_social body) is_follow)))
                      (λ _. ensures_pure none (λ s h. (h, none-IsBuilt key))))))
