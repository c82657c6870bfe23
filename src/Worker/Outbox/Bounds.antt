-- ===== src/Worker/Outbox/Bounds.antt =====
-- What the outbox worker keeps true of every row, whatever fails.
use go_video.Prelude.{
  suc, Act, ℕ, zero, some, true, Result, ok, err, ◌&&◌, Bool, Bool-cases, inl, inr, leb→le, ◌≤◌,
  ◌≡◌, subst, sym, List, [], ◌∷◌, Error, All, length, take, arith, ltb, ◌==◌, if◌then◌else◌,
  length-take-le, leb,
}
use go_video.Prelude.Text.{Text, trim_space}
use go_video.Services.Sql.{All-update_rows}
use go_video.Services.Keeps.{
  Keeps, keeps_rules, Keeps-performs, Keeps-bind, Keeps-attempt, Keeps-time_now,
}
use go_video.Services.Platform.{Platform}
use go_video.Entities.{OutboxMsg, OutboxStatus, pending, processing, published, failed, State}
use go_video.Middleware.Rabbitmq.{mq_publish_timeline}
use go_video.Middleware.Rabbitmq.Laws.{mq_publish_timeline-performs}
use go_video.Worker.Outbox.{
  with_defaults, run, run_loop, same_status, OutboxWorker, max_outbox_retry,
  max_outbox_error_length, truncate_outbox_error, reset_expired_processing, claim, mark_published,
  mark_publish_failed, after_publish, publish_one, publish_each, poll_once,
}

-- A row that may still be published has retries left, and its error text fits its column.
abbrev pub HasRetries : OutboxStatus → ℕ → Type 0
HasRetries pending n = n ≤ max_outbox_retry
HasRetries processing n = n ≤ max_outbox_retry
HasRetries _ n = Unit

abbrev pub IsBounded : OutboxMsg → Type 0
IsBounded m = HasRetries m.status m.retry_count × (length m.last_error ≤ max_outbox_error_length)

abbrev pub OutboxBounded : State → Type 0
OutboxBounded s = All IsBounded s.outbox

short_take :
    (msg : Text)
    → length
        (if leb (length msg) max_outbox_error_length then msg else take max_outbox_error_length msg)
      ≤ max_outbox_error_length
short_take msg = elim (Bool-cases (leb (length msg) max_outbox_error_length)) [
  | inl e ↦ rw e (omega (arith, leb→le _ _ e))
  | inr e ↦ rw e (length-take-le max_outbox_error_length msg)
]

module _ (error_text : Error → Text) where
  pub length-truncate_outbox_error :
      (e : Error) → length (truncate_outbox_error error_text e) ≤ max_outbox_error_length
  unfolding truncate_outbox_error
  length-truncate_outbox_error e = short_take (trim_space (error_text e))

  module _ {W : Type 0} (p : Platform W) where
    -- An UPDATE of the outbox keeps the bounds if its change does.
    update-OutboxBounded :
        (q : OutboxMsg → Bool) (f : OutboxMsg → OutboxMsg)
        → ((m : OutboxMsg) → IsBounded m → q m ≡ true → IsBounded (f m))
        → Keeps p.view OutboxBounded (p.outbox.update q f)
    update-OutboxBounded q f step = Keeps-performs _ _ (p.outbox.update_lem q f) (λ w n s h post.
        subst OutboxBounded (sym post.1) (All-update_rows q IsBounded f (p.view w).outbox step h))

    timeline-OutboxBounded :
        (video time : ℕ) → Keeps p.view OutboxBounded (mq_publish_timeline p video time)
    timeline-OutboxBounded video time =
        Keeps-performs _ _ (mq_publish_timeline-performs p video time)
          (λ w a s h post. subst OutboxBounded (sym post.2) h)

    reset_update-OutboxBounded :
        (deadline now : ℕ)
        → Keeps p.view OutboxBounded (
            p.outbox.update
              (λ m. same_status m.status processing && ltb m.updated_at deadline)
              (λ m. record m { status = pending; updated_at = now }))
    reset_update-OutboxBounded deadline now = update-OutboxBounded _ _ (λ m b e. ground arith)

    claim_update-OutboxBounded :
        (id now : ℕ)
        → Keeps p.view OutboxBounded (
            p.outbox.update
              (λ m. m.id == id && same_status m.status pending)
              (λ m. record m { status = processing; updated_at = now }))
    claim_update-OutboxBounded id now = update-OutboxBounded _ _ (λ m b e. ground arith)

    reset-OutboxBounded :
        (c : OutboxWorker) → Keeps p.view OutboxBounded (reset_expired_processing error_text p c)
    unfolding reset_expired_processing
    reset-OutboxBounded c = search (keeps_rules, Keeps-time_now p, reset_update-OutboxBounded)

    claim-OutboxBounded : (id : ℕ) → Keeps p.view OutboxBounded (claim error_text p id)
    unfolding claim
    claim-OutboxBounded id = search (keeps_rules, Keeps-time_now p, claim_update-OutboxBounded)

    published_update-OutboxBounded :
        (id now : ℕ)
        → Keeps p.view OutboxBounded (
            p.outbox.update
              (λ m. m.id == id)
              (λ m. record m {
                status = published;
                last_error = [];
                published_at = some now;
                updated_at = now;
              }))
    published_update-OutboxBounded id now = update-OutboxBounded _ _ (λ m b e. omega arith)

    failed_update-OutboxBounded :
        (id retries now : ℕ) (e : Error)
        → Keeps p.view OutboxBounded (
            p.outbox.update
              (λ m. m.id == id)
              (λ m. record m {
                status = if ltb max_outbox_retry retries then failed else pending;
                retry_count = retries;
                last_error = truncate_outbox_error error_text e;
                updated_at = now;
              }))
    failed_update-OutboxBounded id retries now e =
        update-OutboxBounded _ _ (λ m b h. ground (arith, length-truncate_outbox_error e))

    mark_published-OutboxBounded :
        (id : ℕ) → Keeps p.view OutboxBounded (mark_published error_text p id)
    unfolding mark_published
    mark_published-OutboxBounded id =
        search (keeps_rules, Keeps-time_now p, published_update-OutboxBounded)

    mark_publish_failed-OutboxBounded :
        (msg : OutboxMsg) (e : Error)
        → Keeps p.view OutboxBounded (mark_publish_failed error_text p msg e)
    unfolding mark_publish_failed
    mark_publish_failed-OutboxBounded msg e =
        search (keeps_rules, Keeps-time_now p, failed_update-OutboxBounded)

    after_publish-OutboxBounded :
        (msg : OutboxMsg) (r : Result (Unit {0}))
        → Keeps p.view OutboxBounded (after_publish error_text p msg r)
    unfolding after_publish
    after_publish-OutboxBounded msg (ok _) = mark_published-OutboxBounded msg.id
    after_publish-OutboxBounded msg (err e) =
        search (keeps_rules, mark_publish_failed-OutboxBounded)

    -- Whatever fails, and however often, publishing one message keeps the bounds.
    pub publish_one-OutboxBounded :
        (msg : OutboxMsg) → Keeps p.view OutboxBounded (publish_one error_text p msg)
    unfolding publish_one
    publish_one-OutboxBounded msg =
        search
          (keeps_rules, claim-OutboxBounded, timeline-OutboxBounded, after_publish-OutboxBounded)
          depth 9

    publish_each-OutboxBounded :
        (ms : List OutboxMsg) → Keeps p.view OutboxBounded (publish_each error_text p ms)
    unfolding publish_each
    publish_each-OutboxBounded [] = search keeps_rules
    publish_each-OutboxBounded (m ∷ ms) =
        Keeps-bind _ _ (Keeps-attempt _ (publish_one-OutboxBounded m))
          (λ _. publish_each-OutboxBounded ms)

    find-OutboxBounded :
        (q : OutboxMsg → Bool) (le : OutboxMsg → OutboxMsg → Bool) (n : ℕ)
        → Keeps p.view OutboxBounded (p.outbox.find_ordered q le n)
    find-OutboxBounded q le n =
        Keeps-performs _ _ (p.outbox.find_ordered_lem q le n)
          (λ w a s h post. subst OutboxBounded (sym post.1) h)

    poll_once-Keeps : (c : OutboxWorker) → Keeps p.view OutboxBounded (poll_once error_text p c)
    unfolding poll_once
    poll_once-Keeps c =
        search (keeps_rules, reset-OutboxBounded, find-OutboxBounded, publish_each-OutboxBounded)

    -- A poll keeps, whatever fails: the retry count that a row which is pending or in process records
    -- is at most three, and no error text that a row records is longer than 512 bytes.
    pub poll_once-OutboxBounded :
        (c : OutboxWorker) (w : W)
        → OutboxBounded (p.view w)
        → OutboxBounded (p.view (poll_once error_text p c w).1)
    poll_once-OutboxBounded c w h = (poll_once-Keeps c).at w h

    module _ (tick : ℕ → Act W (Unit {0}))
        (others : (n : ℕ) → Keeps p.view OutboxBounded (tick n)) where
      run_loop-OutboxBounded :
          (c : OutboxWorker) (ticks : ℕ)
          → Keeps p.view OutboxBounded (run_loop error_text p tick c ticks)
      unfolding run_loop
      run_loop-OutboxBounded c zero = search (keeps_rules, poll_once-Keeps)
      run_loop-OutboxBounded c (suc ticks) =
          Keeps-bind _ _ (Keeps-attempt _ (poll_once-Keeps c))
            (λ _. Keeps-bind _ _ (others c.interval) (λ _. run_loop-OutboxBounded c ticks))

      -- However often the worker polls before its context ends, and whatever fails, it keeps what
      -- the others keep between two polls: the retry count that a row which is pending or in process
      -- records is at most three, and no error text that a row records is longer than 512 bytes. A
      -- failed attempt whose record could not be written is not in that count.
      pub run-OutboxBounded :
          (c : OutboxWorker) (ticks : ℕ) (w : W)
          → OutboxBounded (p.view w)
          → OutboxBounded (p.view (run error_text p tick c ticks w).1)
      unfolding run
      run-OutboxBounded c ticks w h = (run_loop-OutboxBounded (with_defaults c) ticks).at w h
