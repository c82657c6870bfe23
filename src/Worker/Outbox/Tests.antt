-- ===== src/Worker/Outbox/Tests.antt =====
-- Runs of the outbox worker in memory.
use go_video.Prelude.{
  pure, ℕ, ◌≡◌, ◌≢◌, ◌≤◌, refl, true, [], ◌∷◌, ◌++◌, ok, Error, length, ◌>>=◌, message, arith,
}
use go_video.Prelude.Text.{Text, lit, trim_space}
use go_video.Services.Keeps.{Keeps-pure}
use go_video.Services.Platform.{time_now}
use go_video.Middleware.Rabbitmq.{mq_publish_timeline, publish_json, rand_hex, timeline_exchange}
use go_video.Simulation.World.{state_of}
use go_video.Simulation.Services.{memory_platform}
use go_video.Simulation.Samples.{one_message, sample_msg}
use go_video.Worker.Outbox.{
  run, OutboxWorker, mark_published, claim, publish_one, truncate_outbox_error,
  max_outbox_error_length, default_outbox_batch_size, default_outbox_processing_timeout,
}
use go_video.Worker.Outbox.Bounds.{OutboxBounded, run-OutboxBounded, length-truncate_outbox_error}
use go_video.Worker.Outbox.Claim.{claimed_once}
use go_video.Worker.Outbox.Delivery.{IsPublished, timeline_event, publish_one_done}

abbrev text_of : Error → Text
text_of e = lit "  boom "

abbrev worker : OutboxWorker
worker = record {
  batch_size = default_outbox_batch_size;
  interval = 0;
  timeout = default_outbox_processing_timeout;
}

truncate_trims : truncate_outbox_error text_of (message "x") ≡ lit "boom"
unfolding truncate_outbox_error trim_space
truncate_trims = refl

claim_succeeds : (claim text_of memory_platform 3 one_message).0 ≡ ok true
unfolding claim time_now ◌>>=◌
claim_succeeds = refl

publish_succeeds : (publish_one text_of memory_platform sample_msg one_message).0 ≡ ok tt
unfolding publish_one claim time_now ◌>>=◌ mq_publish_timeline publish_json rand_hex mark_published
publish_succeeds = refl

length-truncate_outbox_error_example :
    length (truncate_outbox_error text_of (message "x")) ≤ max_outbox_error_length
length-truncate_outbox_error_example = length-truncate_outbox_error text_of (message "x")

claimed_once_example :
    (claim text_of memory_platform 3 (claim text_of memory_platform 3 one_message).1).0 ≢ ok true
claimed_once_example =
    claimed_once text_of memory_platform 3 one_message
      (claim text_of memory_platform 3 one_message).1 claim_succeeds refl

run-OutboxBounded_example :
    OutboxBounded (state_of (run text_of memory_platform (λ n. pure tt) worker 2 one_message).1)
run-OutboxBounded_example =
    run-OutboxBounded text_of memory_platform (λ n. pure tt) (λ n. Keeps-pure tt) worker 2
      one_message ((omega arith, omega arith), tt)

publish_one_done_example :
    (id : Text) × (t : ℕ) × ((state_of
        (publish_one text_of memory_platform sample_msg one_message).1).timeline_publications
      ≡ [] ++ (timeline_exchange, lit "video.timeline.publish", timeline_event 7 5000 id t) ∷ [])
    × IsPublished 3 (state_of (publish_one text_of memory_platform sample_msg one_message).1)
publish_one_done_example =
    publish_one_done text_of memory_platform sample_msg one_message (λ e. ground arith)
      (λ e. ground arith) claim_succeeds publish_succeeds
