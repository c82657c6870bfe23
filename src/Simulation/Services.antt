-- ===== src/Simulation/Services.antt =====
-- The whole platform in memory.
use go_video.Prelude.{
  Bool-cases, take, map, Error, message, ◌⊎◌, sym, ◌*◌, ◌≤◌, ◌<◌, ◌&&◌, leb, ltb, if◌then◌else◌, ℕ,
  ◌≡◌, inl, inr, refl, Bool, true, Option, none, some, List, [], ◌∷◌, ◌++◌, Result, ok, err, fault,
  Act, arith,
}
use go_video.Prelude.Text.{Text, lit, text_eq, text_eq_self}
use mathlib.Core.List.{Perm}
use mathlib.Core.List.Perm
use go_video.Simulation.Tables.{in_order, in_order-Ordered}
use go_video.Services.Sql.{Lens, Performs, Ordered}
use go_video.Services.Ensures.{ok_injective}
use go_video.Services.Broker.{Channel}
use go_video.Services.Platform.{Platform}
use go_video.Entities.{Video, State, Sent}
use go_video.Entities.Schemas.{
  video_schema, outbox_schema, like_schema, comment_schema, social_schema, account_schema,
  videos_at, outbox_at, likes_at, comments_at, socials_at, accounts_at, like_publications_at,
  comment_publications_at, social_publications_at, popularity_publications_at,
  timeline_publications_at, message_schema, tag_schema, video_tag_schema, notification_schema,
  messages_at, tags_at, video_tags_at, notifications_at,
}
use go_video.Services.Credentials.{Passwords, Tokens, Claims}
use go_video.Simulation.World.{World, state_of, call, call_performs}
use go_video.Simulation.Memory.{memory_table}
use go_video.Simulation.Differs.{
  no_update, no_update_sound, video_differs, video_differs_sound, outbox_differs,
  outbox_differs_sound, account_differs, account_differs_sound, notification_differs,
  notification_differs_sound,
}

abbrev pub append_message :
    {E : Type 0} (at : Lens State (List (Sent E))) → Sent E → State → Result (Unit {0}) × State
append_message at m s = (ok tt, at.set (at.get s ++ m ∷ []) s)

pub append_holds :
    {E : Type 0} (at : Lens State (List (Sent E))) (m : Sent E) (w : World)
    → Performs state_of w
        (call (append_message at m) w)
        (λ _ s. s ≡ at.set (at.get (state_of w) ++ m ∷ []) (state_of w))
append_holds at m w = call_performs (append_message at m) _ w (inl (tt, refl, refl))

abbrev pub memory_channel : {E : Type 0} (at : Lens State (List (Sent E))) → Channel state_of E at
memory_channel at = record {
  send = λ exchange key e. call (append_message at (exchange, key, e));
  taken_lem = λ exchange key e w. append_holds at (exchange, key, e) w;
}

abbrev pub finish : World → Result (Unit {0}) × World → Result (Unit {0}) × World
finish w (ok a, w') = (ok a, w')
finish w (err e, w') = (err e, (w.0, w'.1))

finish_lem :
    (w : World) (out : Result (Unit {0}) × World)
    → (((finish w out).0 ≡ ok tt) × (out.0 ≡ ok tt) × (state_of (finish w out).1 ≡ state_of out.1))
      ⊎ ((e : Error) × ((finish w out).0 ≡ err e)
          × (out.0 ≡ err e)
          × (state_of (finish w out).1 ≡ state_of w))
finish_lem w (ok a, w') = inl (refl, refl, refl)
finish_lem w (err e, w') = inr (e, refl, refl, refl)

pub transaction_holds :
    (body : Act World (Unit {0})) (w : World)
    → (b : World) × (state_of b ≡ state_of w)
      × (((finish w (body w)).0 ≡ ok tt)
            × ((body b).0 ≡ ok tt)
            × (state_of (finish w (body w)).1 ≡ state_of (body b).1)
          ⊎ ((e : Error) × ((finish w (body w)).0 ≡ err e)
              × ((body b).0 ≡ err e)
              × (state_of (finish w (body w)).1 ≡ state_of w))
          ⊎ ((n : ℕ) × ((finish w (body w)).0 ≡ err (fault n))
              × (state_of (finish w (body w)).1 ≡ state_of w)))
transaction_holds body w =
    (w, refl, elim (finish_lem w (body w)) [ inl x ↦ inl x | inr x ↦ inr (inl x) ])

abbrev pub memory_channel_of :
    {E : Type 0} (at : Lens State (List (Sent E))) → Option (Channel state_of E at)
memory_channel_of at = some (memory_channel at)

abbrev pub read_random : State → Result Text × State
read_random s = (ok (lit "4f"), s)

pub read_random_holds :
    (w : World) → Performs state_of w (call read_random w) (λ _ s. s ≡ state_of w)
read_random_holds w = call_performs read_random _ w (inl (_, refl, refl))

abbrev pub read_password : Text → State → Result Text × State
read_password password s = (ok password, s)

abbrev pub compare_plain : Text → Text → Result (Unit {0})
compare_plain hash password =
    if text_eq hash password then ok tt else err (message "mismatched hash and password")

pub compare_plain_self : (password : Text) → compare_plain password password ≡ ok tt
compare_plain_self password = rw (text_eq_self password)

-- Passwords that are their own hashes.
abbrev pub plain_passwords : Passwords state_of
plain_passwords = record {
  generate = λ password. call (read_password password);
  compare = compare_plain;
  generate_lem = λ password w.
      call_performs (read_password password) _ w
        (inl (_, refl, (compare_plain_self password, refl)));
}

abbrev pub token_of : Claims → Text
token_of c = c.account_id ∷ c.not_before ∷ c.expires_at ∷ c.issued_at ∷ c.username

abbrev pub claims_of : Text → Result Claims
claims_of (id ∷ nbf ∷ exp ∷ iat ∷ name) = ok (record {
  account_id = id;
  username = name;
  expires_at = exp;
  issued_at = iat;
  not_before = nbf;
})
claims_of _ = err (message "token is malformed")

abbrev pub valid_claims : ℕ → Result Text → Result Claims → Result (Claims × Bool)
valid_claims now (ok key) (ok c) =
    if leb (c.not_before * 1000) now && ltb now (c.expires_at * 1000)
    then ok (c, true)
    else err (message "token is not valid")
valid_claims now (ok key) (err e) = err e
valid_claims now (err e) c = err e

-- A token that is the list of its claims, with no signature.
abbrev pub parse_plain : Text → (Text → Result Text) → ℕ → Result (Claims × Bool)
parse_plain token key now = valid_claims now (key (lit "HS256")) (claims_of token)

pub parse_plain_holds :
    (c : Claims) (secret token : Text) (key : Text → Result Text) (now : ℕ)
    → ok (token_of c) ≡ ok token
    → key (lit "HS256") ≡ ok secret
    → c.not_before * 1000 ≤ now
    → now < c.expires_at * 1000
    → (d : Claims) × (parse_plain token key now ≡ ok (d, true)) × (d.account_id ≡ c.account_id)
parse_plain_holds c secret token key now signed has_key begun unfinished =
    (c, plain (ok_injective _ _ signed), refl)
  where
    plain : token_of c ≡ token → parse_plain token key now ≡ ok (c, true)
    plain e = rw (sym e) (rw has_key (ground arith))

abbrev pub plain_tokens : Tokens
plain_tokens = record {
  signed_string = λ c secret. ok (token_of c);
  parse = parse_plain;
  signed_string_lem = parse_plain_holds;
}

abbrev pub newest : ℕ × Video → ℕ × Video → Bool
newest a b = leb b.0 a.0

abbrev pub run_select : (State → List (ℕ × Video)) → ℕ → State → Result (List Video) × State
run_select rows n s =
    if in_order newest (rows s)
    then (ok (take n (map (λ (r : ℕ × Video). r.1) (rows s))), s)
    else (err (fault 2), s)

select_cases :
    (rows : State → List (ℕ × Video)) (n : ℕ) (s : State)
    → ((out : List Video) × ((run_select rows n s).0 ≡ ok out)
        × (((all : List (ℕ × Video)) × Perm all (rows s)
              × Ordered newest all
              × (out ≡ take n (map (λ (r : ℕ × Video). r.1) all)))
            × ((run_select rows n s).1 ≡ s)))
      ⊎ ((e : Error) × ((run_select rows n s).0 ≡ err e) × ((run_select rows n s).1 ≡ s))
select_cases rows n s = elim (Bool-cases (in_order newest (rows s))) [
  | inl e ↦ rw e (
      inl (_, refl, ((rows s, Perm.refl (rows s), in_order-Ordered newest (rows s) e, refl), refl)))
  | inr e ↦ rw e (inr (fault 2, refl, refl))
]

pub select_videos_holds :
    (rows : State → List (ℕ × Video)) (n : ℕ) (w : World)
    → Performs state_of w (call (run_select rows n) w) (λ out s.
      ((all : List (ℕ × Video)) × Perm all (rows (state_of w))
        × Ordered newest all
        × (out ≡ take n (map (λ (r : ℕ × Video). r.1) all)))
      × (s ≡ state_of w))
select_videos_holds rows n w =
    call_performs (run_select rows n) _ w (select_cases rows n (state_of w))

-- Every call is on time: the clock stands still, and the random bytes are always the same.
abbrev pub memory_platform : Platform World
memory_platform = record {
  view = state_of;
  videos = memory_table video_schema videos_at video_differs video_differs_sound (λ k r s. refl);
  outbox = memory_table outbox_schema outbox_at outbox_differs outbox_differs_sound (λ k r s. refl);
  likes = memory_table like_schema likes_at no_update no_update_sound (λ k r s. refl);
  comments = memory_table comment_schema comments_at no_update no_update_sound (λ k r s. refl);
  socials = memory_table social_schema socials_at no_update no_update_sound (λ k r s. refl);
  accounts =
      memory_table account_schema accounts_at account_differs account_differs_sound (λ k r s. refl);
  messages = memory_table message_schema messages_at no_update no_update_sound (λ k r s. refl);
  tags = memory_table tag_schema tags_at no_update no_update_sound (λ k r s. refl);
  video_tags =
      memory_table video_tag_schema video_tags_at no_update no_update_sound (λ k r s. refl);
  notifications =
      memory_table notification_schema notifications_at notification_differs
        notification_differs_sound (λ k r s. refl);
  select_videos = λ rows n. call (run_select rows n);
  select_videos_lem = select_videos_holds;
  transactions = record {
    transaction = λ body w. finish w (body w);
    transaction_lem = transaction_holds;
  };
  like_channel = memory_channel_of like_publications_at;
  comment_channel = memory_channel_of comment_publications_at;
  social_channel = memory_channel_of social_publications_at;
  popularity_channel = memory_channel_of popularity_publications_at;
  timeline_channel = memory_channel_of timeline_publications_at;
  redis = none;
  passwords = plain_passwords;
  tokens = plain_tokens;
  jwt_signing_secret = lit "key";
  now = λ w. 100000;
  rand_read = λ n. call read_random;
  rand_read_lem = λ n. read_random_holds;
}

abbrev pub empty_state : State
empty_state = record {
  videos = [];
  outbox = [];
  likes = [];
  comments = [];
  socials = [];
  accounts = [];
  like_publications = [];
  comment_publications = [];
  social_publications = [];
  popularity_publications = [];
  timeline_publications = [];
  strings = λ k. none;
  leases = λ k. none;
  sorted_sets = λ k n. none;
  messages = [];
  tags = [];
  video_tags = [];
  notifications = [];
  timeline = [];
  pushes = [];
}
