-- ===== src/Worker/Outbox.antt =====
-- internal/worker/outbox_worker.go: the poller that hands committed outbox rows to the timeline
-- exchange. `error_text` is `err.Error()`; times are milliseconds.
pub mod Bounds
pub mod Claim
pub mod Delivery
mod Tests
use go_video.Prelude.{
  ℕ, zero, suc, ◌+◌, ◌-◌, ◌*◌, ◌≡◌, Bool, true, false, ◌&&◌, not, none, some, List, [], ◌∷◌, Error,
  message, Result, ok, err, Act, pure, raise, attempt, ◌>>=◌, ◌>>◌, length, take, ltb, leb, ◌==◌,
  if◌then◌else◌,
}
use go_video.Prelude.Text.{Text, trim_space}
use go_video.Services.Platform.{Platform, time_now}
use go_video.Entities.{OutboxMsg, OutboxStatus, pending, processing, published, failed}
use go_video.Middleware.Rabbitmq.{mq_publish_timeline}

abbrev pub default_outbox_batch_size : ℕ
default_outbox_batch_size = 100

abbrev pub default_outbox_interval : ℕ
default_outbox_interval = 1000

abbrev pub default_outbox_processing_timeout : ℕ
default_outbox_processing_timeout = 5 * 60000

abbrev pub max_outbox_retry : ℕ
max_outbox_retry = 3

abbrev pub max_outbox_error_length : ℕ
max_outbox_error_length = 512

abbrev pub same_status : OutboxStatus → OutboxStatus → Bool
same_status pending pending = true
same_status processing processing = true
same_status published published = true
same_status failed failed = true
same_status _ _ = false

-- The worker's fields that are not services.
pub record OutboxWorker : Type 0 where
  pub batch_size : ℕ
  pub interval : ℕ
  pub timeout : ℕ

abbrev pub or_default : ℕ → ℕ → ℕ
or_default d n = if n == 0 then d else n

-- What Run puts in place of fields that are not set.
abbrev pub with_defaults : OutboxWorker → OutboxWorker
with_defaults c = record {
  batch_size = or_default default_outbox_batch_size c.batch_size;
  interval = or_default default_outbox_interval c.interval;
  timeout = or_default default_outbox_processing_timeout c.timeout;
}

module _ (error_text : Error → Text) where
  -- `err` is never nil where this is called.
  pub truncate_outbox_error : Error → Text
  truncate_outbox_error e =
      let msg = trim_space (error_text e) in
      if leb (length msg) max_outbox_error_length then msg else take max_outbox_error_length msg

  module _ {W : Type 0} (p : Platform W) where
    pub reset_expired_processing : OutboxWorker → Act W (Unit {0})
    reset_expired_processing c = do
      t ← time_now p
      let deadline = t - c.timeout
      now ← time_now p
      p.outbox.update (λ m. same_status m.status processing && ltb m.updated_at deadline)
          (λ m. record m { status = pending; updated_at = now })
      pure tt

    pub claim : ℕ → Act W Bool
    claim id = if id == 0 then pure false else (do
      now ← time_now p
      affected ←
          p.outbox.update (λ m. m.id == id && same_status m.status pending)
            (λ m. record m { status = processing; updated_at = now })
      pure (affected == 1))

    pub mark_published : ℕ → Act W (Unit {0})
    mark_published id = if id == 0 then pure tt else (do
      now ← time_now p
      p.outbox.update (λ m. m.id == id)
          (λ m. record m {
            status = published;
            last_error = [];
            published_at = some now;
            updated_at = now;
          })
      pure tt)

    pub mark_publish_failed : OutboxMsg → Error → Act W (Unit {0})
    mark_publish_failed msg publish_err =
        let next_retry = msg.retry_count + 1 in
        let next_status = if ltb max_outbox_retry next_retry then failed else pending in
        if msg.id == 0 then pure tt else (do
          now ← time_now p
          p.outbox.update (λ m. m.id == msg.id)
              (λ m. record m {
                status = next_status;
                retry_count = next_retry;
                last_error = truncate_outbox_error publish_err;
                updated_at = now;
              })
          pure tt)

    after_publish : OutboxMsg → Result (Unit {0}) → Act W (Unit {0})
    after_publish msg (ok _) = mark_published msg.id
    after_publish msg (err e) = do attempt (mark_publish_failed msg e); raise e

    pub publish_one : OutboxMsg → Act W (Unit {0})
    unfolding after_publish
    publish_one msg = if msg.video_id == 0 then pure tt else (do
      claimed ← claim msg.id
      if not claimed then pure tt else do
        result ← attempt (mq_publish_timeline p msg.video_id msg.create_time)
        after_publish msg result)

    -- The loop of pollOnce: an error is logged, and the next message follows.
    pub publish_each : List OutboxMsg → Act W (Unit {0})
    publish_each [] = pure tt
    publish_each (msg ∷ rest) = do attempt (publish_one msg); publish_each rest

    pub poll_once : OutboxWorker → Act W (Unit {0})
    poll_once c = do
      reset_expired_processing c
      messages ←
          p.outbox.find_ordered (λ m. same_status m.status pending)
            (λ m n. leb m.create_time n.create_time) c.batch_size
      publish_each messages

    module _ (tick : ℕ → Act W (Unit {0})) where
      -- The loop of Run when the context ends after some ticks; an error of a poll is logged. `tick`
      -- is the wait for the interval, in which others act.
      run_loop : OutboxWorker → ℕ → Act W (Unit {0})
      run_loop c zero = do attempt (poll_once c); raise (message "context canceled")
      run_loop c (suc ticks) = do attempt (poll_once c); tick c.interval; run_loop c ticks

      -- OutboxWorker.Run of a worker that is initialized
      unfoldable pub run : OutboxWorker → ℕ → Act W (Unit {0})
      unfolding run_loop
      run c ticks = run_loop (with_defaults c) ticks
