-- ===== src/Worker/Retry/Life.antt =====
-- The life of a message under retry.go.
use go_video.Prelude.{
  append_assoc, append-nil, sym, ◌∙◌, inr, Bool, ap, inl, is_ok, ℕ, List, map, ◌++◌, message, zero,
  suc, ◌≡◌, refl, ◌⊎◌, true, false, Option, none, some, [], ◌∷◌, ok, Act, arith, if◌then◌else◌,
}
use go_video.Prelude.Int.{ℤ, pos, ◌+ℤ◌, ◌≤ℤ◌, ltb_ℤ}
use go_video.Prelude.Text.{Text, text_eq, text_eq_iff, text_eq_self}
use go_video.Worker.Retry.{
  Settled, HeaderValue, int32, Headers, Settlement, Arrival, closed, arrived, consume_loop,
  get_header, set_header, Publishing, Delivery, ack, dead_letter, requeue, retry_header,
  max_retry_count, get_retry_count, retry_copy, republish_for_retry, handle_main_delivery,
}

pub get_header-set_header :
    (k j : Text) (v : HeaderValue) (m : Headers)
    → get_header j (set_header k v m) ≡ (if text_eq k j then some v else get_header j m)
unfolding get_header set_header
get_header-set_header k j v [] = refl
get_header-set_header k j v ((i, u) ∷ m) =
    ground (arith, text_eq_iff k j, text_eq_iff i k, text_eq_iff i j, get_header-set_header k j v m)

-- What the broker delivers of a publishing.
abbrev pub delivered : ℕ → Text → Text → Publishing → Delivery
delivered tag exchange key c = record {
  tag = tag;
  exchange = exchange;
  routing_key = key;
  headers = c.headers;
  content_type = c.content_type;
  content_encoding = c.content_encoding;
  delivery_mode = c.delivery_mode;
  priority = c.priority;
  correlation_id = c.correlation_id;
  reply_to = c.reply_to;
  expiration = c.expiration;
  message_id = c.message_id;
  timestamp = c.timestamp;
  kind = c.kind;
  user_id = c.user_id;
  app_id = c.app_id;
  body = c.body;
}

-- The copy of a retry, when it is delivered.
abbrev pub copy_of : Delivery → ℤ → Delivery
copy_of d n = delivered d.tag d.exchange d.routing_key (retry_copy d n)

retry_copy-count : (d : Delivery) (n : ℤ) → get_retry_count (copy_of d n) ≡ n
unfolding retry_copy get_retry_count
retry_copy-count d n = ground (
  arith,
  get_header-set_header retry_header retry_header (int32 n) d.headers,
  text_eq_self retry_header,
)

-- The copy of a retry, delivered under the message's exchange, routing key and tag, is the message
-- but for its headers; these are the same but for the count, which is the number that the retry was given.
pub retry_copy_faithful :
    (d : Delivery) (n : ℤ) (k : Text)
    → text_eq retry_header k ≡ false
    → (record (copy_of d n) { headers = d.headers } ≡ d)
      × (get_header k (copy_of d n).headers ≡ get_header k d.headers)
      × (get_retry_count (copy_of d n) ≡ n)
unfolding retry_copy
retry_copy_faithful d n k h = (
  refl,
  ground (arith, get_header-set_header retry_header k (int32 n) d.headers),
  retry_copy-count d n,
)

-- A message is given up only after its last retry.
abbrev IsDue : Delivery → Settlement → Type 0
IsDue d ack = Unit
IsDue d requeue = Unit
IsDue d dead_letter = max_retry_count ≤ℤ get_retry_count d

-- One call for each delivery.
abbrev pub EachSettled : List Delivery → Settled → Type 0
EachSettled [] [] = Unit
EachSettled (d ∷ ds) ((tag, s) ∷ calls) = (tag ≡ d.tag) × IsDue d s × EachSettled ds calls
EachSettled _ _ = ⊥

module _ {W : Type 0} (publish : Text → Text → Publishing → Act W (Unit {0}))
    (process : Delivery → Act W (Unit {0})) where
  -- Each delivery is settled by one call, on its own tag. It is given up to the dead letter queue
  -- only after the last retry, it is acknowledged only if it was processed or its copy with the next
  -- count was published, and it goes back unchanged only if that publication failed.
  pub settlement_reasons :
      (d : Delivery) (w : W)
      → let copied = republish_for_retry publish d (get_retry_count d +ℤ pos 1) (process d w).1 in
        let settled = (handle_main_delivery publish process d w).0 in
        ((settled ≡ (d.tag, ack) ∷ [])
          × (((process d w).0 ≡ ok tt)
              ⊎ ((ltb_ℤ (get_retry_count d) max_retry_count ≡ true) × (copied.0 ≡ ok tt))))
        ⊎ ((settled ≡ (d.tag, dead_letter) ∷ [])
            × (is_ok (process d w).0 ≡ false)
            × (max_retry_count ≤ℤ get_retry_count d))
        ⊎ ((settled ≡ (d.tag, requeue) ∷ [])
            × (is_ok (process d w).0 ≡ false)
            × (is_ok copied.0 ≡ false))
  unfolding handle_main_delivery
  settlement_reasons d w = ground arith

  settled_once :
      (d : Delivery) (w : W)
      → (s : Settlement) × ((handle_main_delivery publish process d w).0 ≡ (d.tag, s) ∷ [])
        × IsDue d s
  settled_once d w = elim (settlement_reasons d w) [
    | inl (e, _) ↦ (ack, e, tt)
    | inr (inl (e, _, last)) ↦ (dead_letter, e, last)
    | inr (inr (e, _, _)) ↦ (requeue, e, tt)
  ]

  -- However the deliveries fare, when the channel closes after some of them the loop ends with the
  -- error that says so, and it has settled each of those deliveries by one call on its tag, in their
  -- order, and given up only those whose count had reached the last retry.
  pub consume_loop-settles :
      (done : Settled) (ds : List Delivery) (rest : List (Arrival publish)) (w : W)
      → let out = consume_loop publish process done (map arrived ds ++ closed ∷ rest) w in
        (out.0 ≡ some (message "deliveries channel closed"))
        × ((calls : Settled) × (out.1 ≡ done ++ calls) × EachSettled ds calls)
  unfolding consume_loop
  consume_loop-settles done [] rest w = (refl, ([], sym (append-nil done), tt))
  consume_loop-settles done (d ∷ ds) rest w =
      let (calls, w') = handle_main_delivery publish process d w in
      let (s, once, due) = settled_once d w in
      let (ended, (more, all, settles)) = consume_loop-settles (done ++ calls) ds rest w' in
      (
        ended,
        (
          (d.tag, s) ∷ more,
          all ∙ append_assoc done calls more ∙ ap (λ l. done ++ (l ++ more)) once,
          (refl, due, settles),
        ),
      )

-- A broker that takes every message. What is published is remembered with the world.
abbrev pub Published : Type 0
Published = List (Text × Text × Publishing)

abbrev pub takes : {W : Type 0} → Text → Text → Publishing → Act (W × Published) (Unit {0})
takes exchange key c (w, q) = (ok tt, (w, q ++ (exchange, key, c) ∷ []))

module _ {W : Type 0} (process : Delivery → Act W (Unit {0})) where
  -- The consumer beside that broker.
  abbrev pub beside : Delivery → Act (W × Published) (Unit {0})
  beside d (w, q) = let (r, w') = process d w in (r, (w', q))

  abbrev gave_up : Settled → Bool
  gave_up ((_, dead_letter) ∷ []) = true
  gave_up _ = false

  abbrev add_one : Option ℕ → Option ℕ
  add_one none = none
  add_one (some n) = some (suc n)

  abbrev again : (Delivery → W → Option ℕ) → ℕ → Settled × (W × Published) → Option ℕ
  again run tag (settled, (w, [])) = if gave_up settled then some 1 else none
  again run tag (settled, (w, (exchange, key, c) ∷ [])) =
      add_one (run (delivered tag exchange key c) w)
  again run tag (settled, (w, _ ∷ _ ∷ _)) = none

  -- How often a message is processed before it is given up, when what the consumer publishes comes
  -- back as the next delivery; `none` when the fuel runs out or the message ends otherwise.
  pub attempts : ℕ → Delivery → W → Option ℕ
  attempts zero d w = none
  attempts (suc fuel) d w =
      again (attempts fuel) d.tag (handle_main_delivery takes beside d (w, []))
