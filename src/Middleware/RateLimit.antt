-- ===== src/Middleware/RateLimit.antt =====
-- internal/middleware/ratelimit/ratelimit.go. Every key has its bucket; a redis that does not answer
-- lets the request pass.
use go_video.Prelude.{
  Error, ℕ, Bool, true, ◌||◌, not, Option, none, some, ◌++◌, ◌==◌, if◌then◌else◌,
}
use go_video.Prelude.Int.{ℤ}
use go_video.Prelude.Text.{Text, lit, text_eq, is_empty, trim_space}
use go_video.Prelude.Decimal.{format_uint}
use go_video.Middleware.SlidingWindow.{Reply, Bucket, sliding_window_allow_at}

abbrev pub Buckets : Type 0
Buckets = Text → Bucket

abbrev pub prefix_or_default : Text → Text
prefix_or_default t = if is_empty t then lit "default" else t

unfoldable pub build_key : Text → Text → Text
build_key key_prefix subject =
    lit "govideo:ratelimit:"
    ++ (prefix_or_default (trim_space key_prefix) ++ (lit ":" ++ trim_space subject))

abbrev pub key_by_ip : Text → Option Text
key_by_ip client_ip = if is_empty (trim_space client_ip) then none else some (trim_space client_ip)

-- `none` where the context has no account id.
abbrev pub key_by_account : Option ℕ → Option Text
key_by_account none = none
key_by_account (some account_id) = if account_id == 0 then none else some (format_uint account_id)

abbrev pub put_bucket : Text → Bucket → Buckets → Buckets
put_bucket key b f k = if text_eq k key then b else f k

-- `if err != nil { c.Next() }`, then `if !allowed`
abbrev pub goes_on : Bool × ℤ × Option Error → Bool
goes_on (allowed, _, some e) = true
goes_on (allowed, _, none) = allowed

-- One call of SlidingWindowAllow for the key of a subject: whether the request may go on.
pub allow : Reply → Text → ℕ → ℕ → ℕ → Buckets → Bool × Buckets
allow reply key max_requests window now f =
    let (answer, b) = sliding_window_allow_at true key max_requests window now reply (f key) in
    (goes_on answer, put_bucket key b f)

subject_allowed : Reply → Text → ℕ → ℕ → Option Text → ℕ → Buckets → Bool × Buckets
unfolding allow
subject_allowed reply key_prefix max_requests window none now f = (true, f)
subject_allowed reply key_prefix max_requests window (some subject) now f =
    allow reply (build_key key_prefix subject) max_requests window now f

-- Limit: whether the request goes on; otherwise it is answered with 429. The flags say whether the
-- client is set and whether a function for the key is given; the reply says what becomes of the call.
abbrev pub limit : Bool → Reply → Bool → Text → ℕ → ℕ → Option Text → ℕ → Buckets → Bool × Buckets
unfolding subject_allowed
limit client reply has_key_func key_prefix max_requests window subject now f =
    if not client || not has_key_func || max_requests == 0 || window == 0
    then (true, f)
    else subject_allowed reply key_prefix max_requests window subject now f
