-- ===== src/Middleware/SlidingWindow.antt =====
-- internal/middleware/redis/redis.go: slidingWindowScript and the call of it, for one key. Redis
-- runs a script as one step. The members of the sorted set differ by their sequence number, so the
-- set is the list of its scores; a key that has expired is empty.
pub mod Limit
mod Tests
use go_video.Prelude.{
  Error, message, ℕ, ◌+◌, ◌*◌, Bool, true, false, ◌||◌, not, Option, none, some, List, [], ◌∷◌,
  keep, length, ltb, leb, ◌==◌, if◌then◌else◌,
}
use go_video.Prelude.Int.{ℤ, pos, equal_ℤ}
use go_video.Prelude.Text.{Text, is_empty}

pub record Bucket : Type 0 where
  pub scores : List ℕ
  -- The time at which the key expires.
  pub expires_at : ℕ

abbrev pub empty_bucket : Bucket
empty_bucket = record { scores = []; expires_at = 0 }

-- ZREMRANGEBYSCORE key 0 (now - window) leaves these.
abbrev pub in_window : ℕ → ℕ → ℕ → Bool
in_window window now score = not (leb (score + window) now)

abbrev pub live_scores : Bucket → ℕ → List ℕ
live_scores b now = if leb b.expires_at now then [] else b.scores

-- One run of the script: the flag and the count that it returns.
pub script : ℕ → ℕ → ℕ → ℕ → Bucket → (ℕ × ℕ) × Bucket
script now window limit ttl b =
    let kept = keep (in_window window now) (live_scores b now) in
    if leb limit (length kept)
    then ((0, length kept), record { scores = kept; expires_at = now + ttl })
    else ((1, length kept + 1), record { scores = now ∷ kept; expires_at = now + ttl })

-- What go-redis makes of the result of a script: an int64, or a value of another type; an array of
-- such values, or another result; or an error.
pub data Value : Type 0 where
  int64 : ℤ → Value
  other_value : Value

pub data ScriptResult : Type 0 where
  failed : Error → ScriptResult
  array : List Value → ScriptResult
  other_result : ScriptResult

-- How slidingWindowAllowAt reads it: allowed, the count, the error.
pub read_result : ScriptResult → Bool × ℤ × Option Error
read_result (failed e) = (true, pos 0, some e)
read_result (array (int64 allowed ∷ int64 n ∷ [])) = (equal_ℤ allowed (pos 1), n, none)
read_result (array (int64 allowed ∷ other_value ∷ [])) =
    (true, pos 0, some (message "unexpected sliding window count value"))
read_result (array (other_value ∷ _ ∷ [])) =
    (true, pos 0, some (message "unexpected sliding window allowed value"))
read_result _ = (true, pos 0, some (message "unexpected sliding window result"))

-- What becomes of one call: redis runs the script and its result arrives, or the call fails with an
-- error, when redis may have run the script all the same.
pub data Reply : Type 0 where
  answers : Reply
  fails : Bool → Error → Reply

abbrev pub read_reply : Reply → Bucket → (ℕ × ℕ) × Bucket → (Bool × ℤ × Option Error) × Bucket
read_reply answers b ((allowed, n), b') =
    (read_result (array (int64 (pos allowed) ∷ int64 (pos n) ∷ [])), b')
read_reply (fails ran e) b (_, b') = (read_result (failed e), if ran then b' else b)

-- slidingWindowAllowAt. The flag says whether the client is set.
pub sliding_window_allow_at :
    Bool → Text → ℕ → ℕ → ℕ → Reply → Bucket → (Bool × ℤ × Option Error) × Bucket
sliding_window_allow_at client key max_requests window now reply b =
    if not client
    then ((true, pos 0, none), b)
    else if is_empty key || max_requests == 0 || window == 0
    then ((true, pos 0, none), b)
    else read_reply reply b (script now window max_requests (window + 1000) b)
