-- ===== src/Api/Comment/Recorded.antt =====
-- Publish reports success only when the comment is stored or asked for.
use go_video.Prelude.{
  ℕ, ◌≡◌, inl, inr, refl, sym, subst, Bool, true, ◌&&◌, [], ◌∷◌, ◌++◌, any, any-append, arith, ◌==◌,
  ==_iff,
}
use go_video.Prelude.Text.{Text, lit, text_eq, text_eq_self}
use go_video.Services.Ensures.{
  Ensures, ensures_bind, ensures_performs, ensures_pure, ensures_any, ensures_transaction,
}
use go_video.Services.Platform.{Platform}
use go_video.Entities.{Comment, CommentEvent, Sent, State}
use go_video.Middleware.Rabbitmq.{comment_exchange, mq_publish_comment}
use go_video.Middleware.Rabbitmq.Laws.{mq_publish_comment-performs, comment_event}
use go_video.Middleware.Rabbitmq.Facts.{IsCacheFree}
use go_video.Api.Comment.{create_comment, publish_body, store}

-- Two comments say the same.
abbrev pub same_comment : Comment → Comment → Bool
same_comment c r =
    r.video_id == c.video_id
    && r.author_id == c.author_id
    && text_eq r.username c.username
    && text_eq r.content c.content

abbrev pub asks_comment : Comment → Sent CommentEvent → Bool
asks_comment c (exchange, key, evt) =
    text_eq exchange comment_exchange
    && text_eq key (lit "comment.publish")
    && text_eq evt.action (lit "publish")
    && evt.video_id == c.video_id
    && evt.author_id == c.author_id
    && text_eq evt.username c.username
    && text_eq evt.content c.content

abbrev pub IsPosted : Comment → State → Type 0
IsPosted c s = any (same_comment c) s.comments ≡ true

abbrev pub IsPostAsked : Comment → State → Type 0
IsPostAsked c s = any (asks_comment c) s.comment_publications ≡ true

pub IsPosted-IsCacheFree : (c : Comment) → IsCacheFree (IsPosted c)
IsPosted-IsCacheFree c = record {
  popularity_sent = λ s x h. h;
  strings_set = λ s x h. h;
  sets_set = λ s x h. h;
}

pub IsPostAsked-IsCacheFree : (c : Comment) → IsCacheFree (IsPostAsked c)
IsPostAsked-IsCacheFree c = record {
  popularity_sent = λ s x h. h;
  strings_set = λ s x h. h;
  sets_set = λ s x h. h;
}

module _ {W : Type 0} (p : Platform W) (c : Comment) where
  asked :
      (id : Text) (t : ℕ) (s : State)
      → IsPostAsked c (record s {
        comment_publications =
            s.comment_publications
            ++ (
              comment_exchange,
              lit "comment.publish",
              comment_event p c.username c.video_id c.author_id c.content id t,
            )
              ∷ [];
      })
  asked id t s = ground (
    arith,
    any-append (asks_comment c) s.comment_publications (
        (
          comment_exchange,
          lit "comment.publish",
          comment_event p c.username c.video_id c.author_id c.content id t,
        )
        ∷ []),
    text_eq_self comment_exchange,
    text_eq_self (lit "comment.publish"),
    text_eq_self (lit "publish"),
    (==_iff c.video_id c.video_id).1 refl,
    (==_iff c.author_id c.author_id).1 refl,
    text_eq_self c.username,
    text_eq_self c.content,
  )

  pub mq_publish_comment-IsPostAsked :
      Ensures p.view
        (λ _. Unit {0})
        (mq_publish_comment p c.username c.video_id c.author_id c.content)
        (λ _. IsPostAsked c)
  mq_publish_comment-IsPostAsked =
      ensures_performs _ _
        (mq_publish_comment-performs p c.username c.video_id c.author_id c.content)
        (λ w a s h (id, t, sent). subst (IsPostAsked c) (sym sent) (asked id t (p.view w)))

  -- Under any event id.
  create_comment-IsPosted :
      (event_id : Text)
      → Ensures p.view
          (λ _. Unit {0})
          (create_comment p (record c { event_id = event_id }))
          (λ _. IsPosted c)
  unfolding create_comment
  create_comment-IsPosted event_id =
      ensures_bind (λ _ _. Unit {0}) _ _ (ensures_any _)
        (λ now. record {
          at = λ w h k done.
              elim (p.comments.create_lem (record c { event_id = event_id; created_at = now }) w) [
                | inl (i, e, _, _, _, same) ↦ rw same (
                    ground (
                      arith,
                      any-append (same_comment c) (p.view w).comments
                          (record c { id = i; event_id = event_id; created_at = now } ∷ []),
                      (==_iff c.video_id c.video_id).1 refl,
                      (==_iff c.author_id c.author_id).1 refl,
                      text_eq_self c.username,
                      text_eq_self c.content,
                    ))
                | inr (inl (e, _, _)) ↦ absurd (cc (e, done))
                | inr (inr (x, e, _, _)) ↦ absurd (cc (e, done))
              ];
        })

  publish_body-IsPosted :
      (event_id : Text)
      → Ensures p.view
          (λ _. Unit {0})
          (publish_body p (record c { event_id = event_id }))
          (λ _. IsPosted c)
  unfolding publish_body
  publish_body-IsPosted event_id =
      ensures_bind (λ _ _. Unit {0}) _ _ (ensures_any _)
        (λ _.
          ensures_bind (λ _ _. Unit {0}) _ _ (ensures_any _)
            (λ _.
              ensures_bind (λ _. IsPosted c) _ _ (create_comment-IsPosted event_id)
                (λ _.
                  ensures_bind (λ _. IsPosted c) _ _
                    (ensures_performs _ _ (p.videos.update_lem _ _)
                      (λ w n s h post. subst (IsPosted c) (sym post.1) h))
                    (λ _. ensures_pure tt (λ s h. h)))))

  pub store-IsPosted : Ensures p.view (λ _. Unit {0}) (store p c) (λ _. IsPosted c)
  unfolding store
  store-IsPosted =
      ensures_bind (λ _ _. Unit {0}) _ _ (ensures_any _)
        (λ id. ensures_transaction p.transactions _ (publish_body-IsPosted (lit "mock:" ++ id)))
