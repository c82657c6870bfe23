-- ===== src/Worker/Retry/Tests.antt =====
-- A consumer whose handler always fails, and a broker that takes every message.
use go_video.Prelude.{
  ℕ, ◌≡◌, ◌⊎◌, refl, true, false, some, [], ◌∷◌, ok, err, Act, message, is_ok, map, ◌++◌, ◌+◌,
}
use go_video.Prelude.Int.{pos, ◌+ℤ◌, ◌≤ℤ◌, ltb_ℤ}
use go_video.Prelude.Text.{Text, lit, text_eq}
use go_video.Worker.Retry.{
  Settled, other, Publishing, Delivery, ack, dead_letter, requeue, arrived, closed, retry_header,
  max_retry_count, get_header, get_retry_count, republish_for_retry, handle_main_delivery,
  consume_loop,
}
use go_video.Worker.Retry.Life.{
  settlement_reasons, retry_copy_faithful, consume_loop-settles, copy_of, EachSettled,
}

-- The handler counts its runs.
abbrev always_fails : Delivery → Act ℕ (Unit {0})
always_fails d n = (err (message "no"), n + 1)

abbrev takes_all : Text → Text → Publishing → Act ℕ (Unit {0})
takes_all exchange key content n = (ok tt, n)

abbrev fresh_delivery : Delivery
fresh_delivery = record {
  tag = 7;
  exchange = lit "like.events";
  routing_key = lit "like.like";
  headers = (lit "trace", other (lit "1")) ∷ [];
  content_type = lit "application/json";
  content_encoding = lit "utf-8";
  delivery_mode = 2;
  priority = 1;
  correlation_id = lit "c";
  reply_to = lit "r";
  expiration = lit "e";
  message_id = lit "m";
  timestamp = 5;
  kind = lit "t";
  user_id = lit "u";
  app_id = lit "a";
  body = lit "x";
}

trace_is_other : text_eq retry_header (lit "trace") ≡ false
unfolding text_eq
trace_is_other = refl

-- The calls of a loop that acknowledges the message after publishing its copy.
settled_seven :
    (consume_loop takes_all always_fails [] (arrived fresh_delivery ∷ []) 0).1 ≡ (7, ack) ∷ []
unfolding consume_loop handle_main_delivery republish_for_retry get_retry_count get_header text_eq
settled_seven = refl

retry_copy_faithful_example :
    (record (copy_of fresh_delivery (pos 1)) { headers = fresh_delivery.headers } ≡ fresh_delivery)
    × (get_header (lit "trace") (copy_of fresh_delivery (pos 1)).headers
        ≡ get_header (lit "trace") fresh_delivery.headers)
    × (get_retry_count (copy_of fresh_delivery (pos 1)) ≡ pos 1)
retry_copy_faithful_example =
    retry_copy_faithful fresh_delivery (pos 1) (lit "trace") trace_is_other

consume_loop-settles_example :
    let out =
      consume_loop takes_all always_fails []
        (map arrived (fresh_delivery ∷ fresh_delivery ∷ []) ++ closed ∷ [])
        0 in
    (out.0 ≡ some (message "deliveries channel closed"))
    × ((calls : Settled) × (out.1 ≡ calls)
        × EachSettled (fresh_delivery ∷ fresh_delivery ∷ []) calls)
consume_loop-settles_example =
    consume_loop-settles takes_all always_fails [] (fresh_delivery ∷ fresh_delivery ∷ []) [] 0

settlement_reasons_example :
    let copied =
      republish_for_retry takes_all fresh_delivery (get_retry_count fresh_delivery +ℤ pos 1) 1 in
    let settled = (handle_main_delivery takes_all always_fails fresh_delivery 0).0 in
    ((settled ≡ (7, ack) ∷ [])
      × (((always_fails fresh_delivery 0).0 ≡ ok tt)
          ⊎ ((ltb_ℤ (get_retry_count fresh_delivery) max_retry_count ≡ true) × (copied.0 ≡ ok tt))))
    ⊎ ((settled ≡ (7, dead_letter) ∷ [])
        × (false ≡ false)
        × (max_retry_count ≤ℤ get_retry_count fresh_delivery))
    ⊎ ((settled ≡ (7, requeue) ∷ []) × (false ≡ false) × (is_ok copied.0 ≡ false))
settlement_reasons_example = settlement_reasons takes_all always_fails fresh_delivery 0
