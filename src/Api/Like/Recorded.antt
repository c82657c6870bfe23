-- ===== src/Api/Like/Recorded.antt =====
-- What LikeService promises when Like or Unlike reports success: the change is in the likes table,
-- or a message that asks for it was published on the exchange and under the routing key that lead to
-- the like worker.
use go_video.Prelude.{
  ==_iff, Result-cases, sym, is_ok, pure, subst, record_not_found, is_dup_key, if◌then◌else◌, ℕ,
  ◌≡◌, ◌⊎◌, inl, inr, Bool, true, false, ◌&&◌, [], ◌∷◌, ◌++◌, Act, refl, any, arith, Result, ok,
  err, ◌==◌, any-append,
}
use go_video.Prelude.Int.{ℤ}
use go_video.Prelude.Text.{Text, lit, text_eq, text_eq_self}
use go_video.Services.Sql.{none-delete_rows}
use go_video.Services.Keeps.{Keeps-pure, Keeps-if, Keeps-pure, Keeps-if}
use go_video.Services.Ensures.{
  IfDone, ensures_try, ensures_weaken, Ensures, ensures_bind, ensures_keeps, ensures_performs,
  ensures_attempt, ensures_pure, ensures_raise, ensures_if, ensures_transaction,
}
use go_video.Services.Platform.{Platform}
use go_video.Entities.{State, Like, Video, Sent, LikeEvent}
use go_video.Middleware.Rabbitmq.{like_exchange, mq_like, mq_unlike}
use go_video.Middleware.Rabbitmq.Facts.{IsCacheFree}
use go_video.Middleware.Rabbitmq.Laws.{like_event, mq_like-performs, mq_unlike-performs}
use go_video.Api.Video.Facts.{Keeps-update_popularity_cache}
use go_video.Api.Like.{
  like_created, video_found, enqueue, fallback, like_body, unlike_body, is_pair,
}

abbrev pub announces : Text → ℕ → ℕ → Sent LikeEvent → Bool
announces action user video (exchange, key, evt) =
    text_eq exchange like_exchange
    && text_eq key (lit "like." ++ action)
    && text_eq evt.action action
    && evt.user_id == user
    && evt.video_id == video

-- A publication that asks for the action, on the exchange and under the routing key of its queue,
-- was taken by the client.
abbrev pub IsQueued : Text → Like → State → Type 0
IsQueued action l s = any (announces action l.account_id l.video_id) s.like_publications ≡ true

abbrev pub IsStored : Bool → Like → State → Type 0
IsStored stored l s = any (is_pair l.video_id l.account_id) s.likes ≡ stored

IsQueued-IsCacheFree : (action : Text) (l : Like) → IsCacheFree (IsQueued action l)
IsQueued-IsCacheFree action l = record {
  popularity_sent = λ s x h. h;
  strings_set = λ s x h. h;
  sets_set = λ s x h. h;
}

pub IsStored-IsCacheFree : (stored : Bool) (l : Like) → IsCacheFree (IsStored stored l)
IsStored-IsCacheFree stored l = record {
  popularity_sent = λ s x h. h;
  strings_set = λ s x h. h;
  sets_set = λ s x h. h;
}

module _ {W : Type 0} (p : Platform W) where
  pub ensures_enqueued :
      {P Q : State → Type 0} (b : Bool) (send : Act W (Unit {0}))
      → Ensures p.view P send (λ _. Q)
      → Ensures p.view P (enqueue p b send) (IfDone Q)
  unfolding enqueue
  ensures_enqueued false send h = ensures_pure false (λ s x. tt)
  ensures_enqueued {Q = Q} true send h =
      ensures_bind (λ r. IfDone Q (is_ok r)) _ _ (ensures_try send h)
        (λ r. ensures_pure (is_ok r) (λ s x. x))

module _ {W : Type 0} (p : Platform W) (action : Text) (l : Like) where
  -- What is known after a producer was tried: if it sent, the publication is there.
  abbrev pub SentIf : Bool → State → Type 0
  SentIf true = IsQueued action l
  SentIf false = λ _. Unit {0}

  pub SentIf-IsCacheFree : (b : Bool) → IsCacheFree (SentIf b)
  SentIf-IsCacheFree true = IsQueued-IsCacheFree action l
  SentIf-IsCacheFree false = record {
    popularity_sent = λ s x h. h;
    strings_set = λ s x h. h;
    sets_set = λ s x h. h;
  }

  -- A producer whose success publishes the message.
  pub ensures_enqueue :
      {P : State → Type 0} (b : Bool) (send : Act W (Unit {0}))
      → Ensures p.view P send (λ _. IsQueued action l)
      → Ensures p.view P (enqueue p b send) SentIf
  unfolding enqueue
  ensures_enqueue false send h = ensures_pure false (λ s x. tt)
  ensures_enqueue {P = P} true send h =
      ensures_bind (λ r. SentIf (is_ok r)) _ _ (ensures_attempt send (λ w x. sent w x))
        (λ r. ensures_pure (is_ok r) (λ s x. x))
    where
      sent : (w : W) → P (p.view w) → SentIf (is_ok (send w).0) (p.view (send w).1)
      sent w x = elim (Result-cases (send w).0) [
        | inl (a, e) ↦ rw e (h.at w x a e)
        | inr (z, e) ↦ rw e tt
      ]

  either-IsCacheFree :
      (Q : State → Type 0) → IsCacheFree Q → IsCacheFree (λ s. Q s ⊎ IsQueued action l s)
  either-IsCacheFree Q free = record {
    popularity_sent = λ s x h. elim h [ inl q ↦ inl (free.popularity_sent s x q) | inr q ↦ inr q ];
    strings_set = λ s x h. elim h [ inl q ↦ inl (free.strings_set s x q) | inr q ↦ inr q ];
    sets_set = λ s x h. elim h [ inl q ↦ inl (free.sets_set s x q) | inr q ↦ inr q ];
  }

  -- With the message published or the transaction done.
  pub ensures_fallback :
      (mysql_enqueued redis_enqueued : Bool) (body : Act W (Unit {0})) (video : ℕ) (change : ℤ)
      (Q : State → Type 0)
      → IsCacheFree Q
      → Ensures p.view (λ _. Unit {0}) body (λ _. Q)
      → Ensures p.view
          (SentIf mysql_enqueued)
          (fallback p mysql_enqueued redis_enqueued body video change)
          (λ _ s. Q s ⊎ IsQueued action l s)
  unfolding fallback
  ensures_fallback mysql_enqueued redis_enqueued body video change Q free h =
      ensures_bind (λ _ s. Q s ⊎ IsQueued action l s) _ _ (recorded mysql_enqueued)
        (λ _. ensures_keeps _ (
          Keeps-if redis_enqueued _ _ (Keeps-pure tt)
            (Keeps-update_popularity_cache p _ (either-IsCacheFree Q free) video change)))
    where
      recorded :
          (b : Bool)
          → Ensures p.view
              (SentIf b)
              (if b then pure tt else p.transactions.transaction body)
              (λ _ s. Q s ⊎ IsQueued action l s)
      recorded true = ensures_pure tt (λ s x. inr x)
      recorded false =
          ensures_weaken _ (λ s x. tt) (λ a s x. inl x) (ensures_transaction p.transactions body h)

module _ {W : Type 0} (p : Platform W) (l : Like) where
  videos-IsStored :
      (stored : Bool) (q : Video → Bool) (f : Video → Video)
      → Ensures p.view (IsStored stored l) (p.videos.update q f) (λ _. IsStored stored l)
  videos-IsStored stored q f =
      ensures_performs _ _ (p.videos.update_lem q f)
        (λ w n s h post. subst (IsStored stored l) (sym post.1) h)

  abbrev IfCreated : Result ℕ → State → Type 0
  IfCreated (ok _) = IsStored true l
  IfCreated (err _) = λ _. Unit {0}

  create_IfCreated : (w : W) → IfCreated (p.likes.create l w).0 (p.view (p.likes.create l w).1)
  create_IfCreated w = elim (p.likes.create_lem l w) [
    | inl (k, e, _, _, _, same) ↦
        rw (e, same)
          (ground (
            arith,
            any-append (is_pair l.video_id l.account_id) (p.view w).likes
                (record l { id = k } ∷ []),
          ))
    | inr (inl (e, _, _)) ↦ rw e tt
    | inr (inr (x, e, _, _)) ↦ rw e tt
  ]

  created_IfCreated :
      (r : Result ℕ) → Ensures p.view (IfCreated r) (like_created p r) (λ _. IsStored true l)
  unfolding like_created
  created_IfCreated (ok k) = ensures_pure tt (λ s h. h)
  created_IfCreated (err e) =
      ensures_if (is_dup_key e) _ _ (λ _. ensures_raise _) (λ _. ensures_raise _)

  found_any :
      (r : Result Video) → Ensures p.view (λ _. Unit {0}) (video_found p r) (λ _ _. Unit {0})
  unfolding video_found
  found_any (ok v) = ensures_pure tt (λ s h. h)
  found_any (err record_not_found) = ensures_raise _
  found_any (err e) = ensures_raise e

  pub like_body-IsStored : Ensures p.view (λ _. Unit {0}) (like_body p l) (λ _. IsStored true l)
  unfolding like_body
  like_body-IsStored =
      ensures_bind (λ _ _. Unit {0}) _ _ (ensures_attempt _ (λ w x. tt))
        (λ found.
          ensures_bind (λ _ _. Unit {0}) _ _ (found_any found)
            (λ _. ensures_bind IfCreated _ _ (ensures_attempt _ (λ w x. create_IfCreated w)) (λ r.
              ensures_bind (λ _. IsStored true l) _ _ (created_IfCreated r)
                (λ _.
                  ensures_bind (λ _. IsStored true l) _ _ (videos-IsStored true _ _)
                    (λ _.
                      ensures_bind (λ _. IsStored true l) _ _ (videos-IsStored true _ _)
                        (λ _. ensures_pure tt (λ s h. h)))))))

  pub unlike_body-IsStored :
      Ensures p.view (λ _. Unit {0}) (unlike_body p l) (λ _. IsStored false l)
  unfolding unlike_body
  unlike_body-IsStored =
      ensures_bind (λ _. IsStored false l) _ _
        (ensures_performs _ _ (p.likes.delete_lem _) (λ w n s h post.
          subst (IsStored false l) (sym post.1)
            (none-delete_rows (is_pair l.video_id l.account_id) (p.view w).likes)))
        (λ n.
          ensures_if (n == 0) _ _ (λ _. ensures_raise _)
            (λ _.
              ensures_bind (λ _. IsStored false l) _ _ (videos-IsStored false _ _)
                (λ _.
                  ensures_bind (λ _. IsStored false l) _ _ (videos-IsStored false _ _)
                    (λ _. ensures_pure tt (λ s h. h)))))

  queued :
      (action id : Text) (t : ℕ) (s : State)
      → IsQueued action l (record s {
        like_publications =
            s.like_publications
            ++ (
              like_exchange,
              lit "like." ++ action,
              like_event p action l.account_id l.video_id id t,
            )
              ∷ [];
      })
  queued action id t s = ground (
    arith,
    any-append (announces action l.account_id l.video_id) s.like_publications (
        (like_exchange, lit "like." ++ action, like_event p action l.account_id l.video_id id t)
        ∷ []),
    text_eq_self like_exchange,
    text_eq_self (lit "like." ++ action),
    text_eq_self action,
    (==_iff l.account_id l.account_id).1 refl,
    (==_iff l.video_id l.video_id).1 refl,
  )

  pub mq_like-IsQueued :
      Ensures p.view
        (λ _. Unit {0})
        (mq_like p l.account_id l.video_id)
        (λ _. IsQueued (lit "like") l)
  mq_like-IsQueued =
      ensures_performs _ _ (mq_like-performs p l.account_id l.video_id) (λ w a s h (id, t, sent).
        subst (IsQueued (lit "like") l) (sym sent) (queued (lit "like") id t (p.view w)))

  pub mq_unlike-IsQueued :
      Ensures p.view
        (λ _. Unit {0})
        (mq_unlike p l.account_id l.video_id)
        (λ _. IsQueued (lit "unlike") l)
  mq_unlike-IsQueued =
      ensures_performs _ _ (mq_unlike-performs p l.account_id l.video_id) (λ w a s h (id, t, sent).
        subst (IsQueued (lit "unlike") l) (sym sent) (queued (lit "unlike") id t (p.view w)))
