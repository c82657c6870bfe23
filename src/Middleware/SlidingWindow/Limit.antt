-- ===== src/Middleware/SlidingWindow/Limit.antt =====
-- How many requests pass within one window.
use go_video.Prelude.{
  Option, Error, Bool, is_none, ◌&&◌, ◌==◌, suc, ℕ, ◌+◌, ◌≤◌, ◌≡◌, ◌≢◌, refl, sym, inl, inr,
  Bool-cases, true, false, List, [], ◌∷◌, All, keep, length, leb, arith, if◌then◌else◌,
}
use go_video.Prelude.Int.{ℤ}
use go_video.Prelude.Text.{Text, is_empty}
use go_video.Middleware.SlidingWindow.{
  Bucket, empty_bucket, in_window, live_scores, script, sliding_window_allow_at, Reply, answers,
  fails, read_reply, read_result,
}

room : (limit n : ℕ) → leb limit n ≡ false → suc n ≤ limit
room limit n h = ground arith

module _ (key : Text) (max_requests window : ℕ) where
  -- Whether a request was let in by an answer of redis.
  abbrev pub let_in : Bool × ℤ × Option Error → Bool
  let_in (allowed, _, e) = allowed && is_none e

  -- The requests at these times and what became of their calls, the latest first: the bucket that
  -- they leave, and the times of those that an answer of redis let in.
  abbrev pub requests : List (ℕ × Reply) → Bucket × List ℕ
  requests [] = (empty_bucket, [])
  requests ((now, reply) ∷ earlier) =
      let (b, passed) = requests earlier in
      let (answer, b') = sliding_window_allow_at true key max_requests window now reply b in
      (b', if let_in answer then now ∷ passed else passed)

  -- No request is earlier than the one before it.
  abbrev pub Descending : List (ℕ × Reply) → Type 0
  Descending [] = Unit
  Descending ((now, _) ∷ []) = Unit
  Descending ((now, _) ∷ (before, reply) ∷ earlier) =
      (before ≤ now) × Descending ((before, reply) ∷ earlier)

  keep_later :
      (now later : ℕ) (ts : List ℕ)
      → now ≤ later
      → keep (in_window window later) (keep (in_window window now) ts)
        ≡ keep (in_window window later) ts
  keep_later now later [] h = refl
  keep_later now later (t ∷ ts) h = ground (arith, keep_later now later ts)

  keep_old :
      (now later : ℕ) (ts : List ℕ)
      → All (λ t. t ≤ now) ts
      → now + (window + 1000) ≤ later
      → keep (in_window window later) ts ≡ []
  keep_old now later [] h e = refl
  keep_old now later (t ∷ ts) h e = ground (arith, h.0, keep_old now later ts h.1)

  All-weaken : (a b : ℕ) (ts : List ℕ) → a ≤ b → All (λ t. t ≤ a) ts → All (λ t. t ≤ b) ts
  All-weaken a b [] h all = tt
  All-weaken a b (t ∷ ts) h all = (omega (arith, all.0), All-weaken a b ts h all.1)

  -- The bucket holds the requests that passed within the last window.
  abbrev Follows : ℕ → Bucket → List ℕ → Type 0
  Follows now b passed =
      (b.scores ≡ keep (in_window window now) passed)
      × (b.expires_at ≡ now + (window + 1000))
      × All (λ t. t ≤ now) passed

  -- What a later run of the script finds.
  kept_scores :
      (now later : ℕ) (b : Bucket) (passed : List ℕ)
      → Follows now b passed
      → now ≤ later
      → keep (in_window window later) (live_scores b later) ≡ keep (in_window window later) passed
  kept_scores now later b passed (scores, expiry, old) h =
      elim (Bool-cases (leb b.expires_at later)) [
        | inl e ↦ rw e (sym (keep_old now later passed old (ground (arith, expiry))))
        | inr e ↦ rw (e, scores) (keep_later now later passed h)
      ]

  length-keep_later :
      (now later : ℕ) (ts : List ℕ)
      → now ≤ later
      → length (keep (in_window window later) ts) ≤ length (keep (in_window window now) ts)
  length-keep_later now later [] h = omega arith
  length-keep_later now later (t ∷ ts) h = ground (arith, length-keep_later now later ts)

  abbrev Bounded : ℕ → List ℕ → Type 0
  Bounded now passed = length (keep (in_window window now) passed) ≤ max_requests

  -- What the bucket holds of the requests that the script let in, at a time and after it, and that
  -- the requests in `passed` are among them.
  abbrev Tracks : ℕ → Bucket → List ℕ → List ℕ → Type 0
  Tracks now b counted passed =
      ((later : ℕ)
        → now ≤ later
        → keep (in_window window later) (live_scores b later)
          ≡ keep (in_window window later) counted)
      × Bounded now counted
      × All (λ t. t ≤ now) counted
      × ((at : ℕ)
          → length (keep (in_window window at) passed)
            ≤ length (keep (in_window window at) counted))

  tracks_later :
      (now later : ℕ) (b : Bucket) (counted passed : List ℕ)
      → now ≤ later
      → Tracks now b counted passed
      → Tracks later b counted passed
  tracks_later now later b counted passed h (found, bound, old, among) = (
    λ t le. found t (omega arith),
    omega (arith, bound, length-keep_later now later counted h),
    All-weaken now later counted h old,
    among,
  )

  module _ (named : is_empty key ≡ false) (some_allowed : max_requests ≢ 0)
      (wide : window ≢ 0) where
    runs_script :
        (now : ℕ) (reply : Reply) (b : Bucket)
        → sliding_window_allow_at true key max_requests window now reply b
          ≡ read_reply reply b (script now window max_requests (window + 1000) b)
    unfolding sliding_window_allow_at
    runs_script now reply b = ground arith

    itself : (now : ℕ) → in_window window now now ≡ true
    itself now = ground (arith, wide)

    -- The requests that were let in after one more run of the script.
    abbrev count_in : ℕ → (ℕ × ℕ) × Bucket → List ℕ → List ℕ
    count_in now ((allowed, _), _) counted = if allowed == 1 then now ∷ counted else counted

    one_script :
        (now : ℕ) (b : Bucket) (counted : List ℕ)
        → keep (in_window window now) (live_scores b now) ≡ keep (in_window window now) counted
        → Bounded now counted
        → All (λ t. t ≤ now) counted
        → let out = script now window max_requests (window + 1000) b in
          Follows now out.1 (count_in now out counted) × Bounded now (count_in now out counted)
    unfolding script
    one_script now b counted found bound old =
        elim (Bool-cases (leb max_requests (length (keep (in_window window now) counted)))) [
          | inl e ↦ rw (found, e) ((refl, refl, old), bound)
          | inr e ↦
              rw (found, e)
                (rw (itself now) ((refl, refl, (omega arith, old)), room max_requests _ e))
        ]

    more_counted :
        (now at : ℕ) (out : (ℕ × ℕ) × Bucket) (counted : List ℕ)
        → length (keep (in_window window at) counted)
          ≤ length (keep (in_window window at) (count_in now out counted))
    more_counted now at out counted = ground arith

    answered_among :
        (now at : ℕ) (b : Bucket) (out : (ℕ × ℕ) × Bucket) (counted passed : List ℕ)
        → length (keep (in_window window at) passed) ≤ length (keep (in_window window at) counted)
        → length (
            keep
              (in_window window at)
              (if let_in (read_reply answers b out).0 then now ∷ passed else passed))
          ≤ length (keep (in_window window at) (count_in now out counted))
    unfolding read_result
    answered_among now at b out counted passed h = ground arith

    one_more :
        (now : ℕ) (reply : Reply) (b : Bucket) (counted passed : List ℕ)
        → Tracks now b counted passed
        → let out = sliding_window_allow_at true key max_requests window now reply b in
          (counted' : List ℕ) × Tracks now out.1 counted'
            (if let_in out.0 then now ∷ passed else passed)
    unfolding read_result
    one_more now reply b counted passed (found, bound, old, among) =
        rw (runs_script now reply b) (of_reply reply)
      where
        out : (ℕ × ℕ) × Bucket
        out = script now window max_requests (window + 1000) b

        ran :
            (passed' : List ℕ)
            → ((at : ℕ)
                → length (keep (in_window window at) passed')
                  ≤ length (keep (in_window window at) (count_in now out counted)))
            → Tracks now out.1 (count_in now out counted) passed'
        ran passed' more =
            let (follows, bound') = one_script now b counted (found now (omega arith)) bound old in
            (λ t le. kept_scores now t out.1 _ follows le, bound', follows.2, more)

        of_reply :
            (reply : Reply)
            → let result = read_reply reply b out in
              (counted' : List ℕ) × Tracks now result.1 counted'
                (if let_in result.0 then now ∷ passed else passed)
        of_reply answers = (_, ran _ (λ at. answered_among now at b out counted passed (among at)))
        of_reply (fails true e) =
            (_, ran passed (λ at. omega (arith, among at, more_counted now at out counted)))
        of_reply (fails false e) = (counted, (found, bound, old, among))

    follows :
        (now : ℕ) (reply : Reply) (earlier : List (ℕ × Reply))
        → Descending ((now, reply) ∷ earlier)
        → (counted : List ℕ) × Tracks now
            (requests ((now, reply) ∷ earlier)).0
            counted
            (requests ((now, reply) ∷ earlier)).1
    follows now reply [] d =
        one_more now reply empty_bucket [] []
          ((λ t le. ground arith), omega arith, tt, λ at. omega arith)
    follows now reply ((before, r) ∷ earlier) d =
        let (counted, tracks) = follows before r earlier d.1 in
        one_more now reply _ counted _ (tracks_later before now _ counted _ d.0 tracks)

    -- When no request comes earlier than the one before it, at most max_requests of those that an
    -- answer of redis let in fall within any window that ends at a request, whichever other calls
    -- failed, before or after the script ran, and whether or not the key expired in between. A
    -- request whose call fails passes and is not counted here.
    pub window_bound :
        (now : ℕ) (reply : Reply) (earlier : List (ℕ × Reply))
        → Descending ((now, reply) ∷ earlier)
        → length (keep (in_window window now) (requests ((now, reply) ∷ earlier)).1) ≤ max_requests
    window_bound now reply earlier d =
        let (counted, (_, bound, _, among)) = follows now reply earlier d in
        omega (arith, among now, bound)
