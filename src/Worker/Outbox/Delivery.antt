-- ===== src/Worker/Outbox/Delivery.antt =====
-- What it means that the outbox worker reports no error for a message that it claimed.
use go_video.Prelude.{
  ℕ, ◌≡◌, ◌≢◌, refl, Bool-cases, true, inl, inr, some, List, [], ◌∷◌, ◌++◌, Error, Result, ok, err,
  Act, attempt, ==_iff, ◌>>=◌, arith, All, ◌==◌, subst, sym, ap, ◌∙◌,
}
use go_video.Prelude.Text.{Text, lit}
use go_video.Services.Sql.{performs_cases, update_rows}
use go_video.Services.Platform.{Platform, time_now}
use go_video.Entities.{OutboxMsg, TimelineEvent, State, published}
use go_video.Middleware.Rabbitmq.{timeline_exchange, mq_publish_timeline}
use go_video.Middleware.Rabbitmq.Laws.{mq_publish_timeline-performs}
use go_video.Worker.Outbox.{claim, mark_published, after_publish, publish_one}
use go_video.Worker.Outbox.Claim.{claim_won}

-- Every row of that id is published.
abbrev pub IsPublished : ℕ → State → Type 0
IsPublished id s = All (λ m. m.id ≡ id → m.status ≡ published) s.outbox

-- The event that announces a video to the timeline.
abbrev pub timeline_event : ℕ → ℕ → Text → ℕ → TimelineEvent
timeline_event video time id t = record {
  event_id = id;
  action = lit "publish";
  video_id = video;
  create_time = time;
  occurred_at = t;
}

abbrev as_published : ℕ → OutboxMsg → OutboxMsg
as_published now m = record m {
  status = published;
  last_error = [];
  published_at = some now;
  updated_at = now;
}

published_rows :
    (id now : ℕ) (rows : List OutboxMsg)
    → All
        (λ m. m.id ≡ id → m.status ≡ published)
        (update_rows (λ m. m.id == id) (as_published now) rows)
published_rows id now [] = tt
published_rows id now (m ∷ ms) = (λ h. ground arith, published_rows id now ms)

module _ (error_text : Error → Text) {W : Type 0} (p : Platform W) where
  mark_published_view :
      (id : ℕ) (w : W)
      → id ≢ 0
      → (mark_published error_text p id w).0 ≡ ok tt
      → p.view (mark_published error_text p id w).1 ≡ record (p.view w) {
        outbox = update_rows (λ m. m.id == id) (as_published (p.now w)) (p.view w).outbox;
      }
  unfolding mark_published time_now ◌>>=◌
  mark_published_view id w nz done =
      ground
        (arith, performs_cases (p.outbox.update_lem (λ m. m.id == id) (as_published (p.now w)) w))

  after_publish_done :
      (msg : OutboxMsg) (r : Result (Unit {0})) (w : W)
      → msg.id ≢ 0
      → (after_publish error_text p msg r w).0 ≡ ok tt
      → (r ≡ ok tt)
        × ((p.view (after_publish error_text p msg r w).1).timeline_publications
            ≡ (p.view w).timeline_publications)
        × IsPublished msg.id (p.view (after_publish error_text p msg r w).1)
  unfolding after_publish ◌>>=◌
  after_publish_done msg (ok _) w nid done =
      let after = mark_published_view msg.id w nid done in
      (
        refl,
        ap (λ (s : State). s.timeline_publications) after,
        subst (IsPublished msg.id) (sym after) (published_rows msg.id (p.now w) (p.view w).outbox),
      )
  after_publish_done msg (err e) w nid done = absurd (cc)

  -- What follows a claim.
  deliver : OutboxMsg → Act W (Unit {0})
  deliver msg = do
    result ← attempt (mq_publish_timeline p msg.video_id msg.create_time)
    after_publish error_text p msg result

  publish_one_claimed :
      (msg : OutboxMsg) (w : W)
      → msg.video_id ≢ 0
      → (claim error_text p msg.id w).0 ≡ ok true
      → publish_one error_text p msg w ≡ deliver msg (claim error_text p msg.id w).1
  unfolding publish_one deliver ◌>>=◌
  publish_one_claimed msg w nz won = elim (Bool-cases (msg.video_id == 0)) [
    | inl z ↦ absurd (nz ((==_iff msg.video_id 0).0 z))
    | inr z ↦ rw (z, won)
  ]

  deliver_done :
      (msg : OutboxMsg) (w : W)
      → msg.id ≢ 0
      → (deliver msg w).0 ≡ ok tt
      → (id : Text) × (t : ℕ) × ((p.view (deliver msg w).1).timeline_publications
          ≡ (p.view w).timeline_publications
            ++ (
              timeline_exchange,
              lit "video.timeline.publish",
              timeline_event msg.video_id msg.create_time id t,
            )
              ∷ [])
        × IsPublished msg.id (p.view (deliver msg w).1)
  unfolding deliver after_publish ◌>>=◌
  deliver_done msg w nid done =
      elim (performs_cases (mq_publish_timeline-performs p msg.video_id msg.create_time w)) [
        | inl (a, e, (id, t, sent)) ↦
            (id, t, reported.1 ∙ ap (λ (s : State). s.timeline_publications) sent, reported.2)
        | inr (x, e, same) ↦ absurd (cc (e, reported.0))
      ]
    where
      reported :
          ((mq_publish_timeline p msg.video_id msg.create_time w).0 ≡ ok tt)
          × ((p.view (deliver msg w).1).timeline_publications
              ≡ (p.view
                  (mq_publish_timeline p msg.video_id msg.create_time w).1).timeline_publications)
          × IsPublished msg.id (p.view (deliver msg w).1)
      reported =
          after_publish_done msg (mq_publish_timeline p msg.video_id msg.create_time w).0
            (mq_publish_timeline p msg.video_id msg.create_time w).1 nid done

  -- If a message was claimed and then reported as done, the client took one publication more for the
  -- timeline, on the exchange and under the routing key of the timeline worker and with that message's
  -- video and time, and every row of its id is marked as published. Without confirms this does not
  -- say that the broker has the event.
  pub publish_one_done :
      (msg : OutboxMsg) (w : W)
      → msg.video_id ≢ 0
      → msg.id ≢ 0
      → (claim error_text p msg.id w).0 ≡ ok true
      → (publish_one error_text p msg w).0 ≡ ok tt
      → (id : Text) × (t : ℕ) × ((p.view (publish_one error_text p msg w).1).timeline_publications
          ≡ (p.view w).timeline_publications
            ++ (
              timeline_exchange,
              lit "video.timeline.publish",
              timeline_event msg.video_id msg.create_time id t,
            )
              ∷ [])
        × IsPublished msg.id (p.view (publish_one error_text p msg w).1)
  publish_one_done msg w nz nid won done = rw (publish_one_claimed msg w nz won) (
      rw (sym (ap (λ (s : State). s.timeline_publications) (claim_won error_text p msg.id w won))) (
        deliver_done msg (claim error_text p msg.id w).1 nid
          (rw (publish_one_claimed msg w nz won) at done)))
