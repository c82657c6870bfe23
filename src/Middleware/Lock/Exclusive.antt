-- ===== src/Middleware/Lock/Exclusive.antt =====
-- Who holds the lock, and until when.
use go_video.Prelude.{
  if◌then◌else◌, ltb, ◌==◌, ◌||◌, Result-cases, err, Error, ◌⊎◌, ℕ, ◌≡◌, ◌≢◌, ◌∙◌, refl, sym, subst,
  ap, inl, inr, true, false, Option, none, some, ok, is_none, arith,
}
use go_video.Prelude.Text.{text_eq_self, Text, text_eq, text_eq_iff}
use go_video.Services.Redis.{less, lasting, lease_of, Key, key_eq}
use go_video.Services.Keeps.{Keeps, Keeps-performs, Keeps-bind, Keeps-pure}
use go_video.Services.Ensures.{Ensures, ensures_bind, ensures_performs, ensures_pure}
use go_video.Services.Platform.{Platform}
use go_video.Entities.{State}
use go_video.Entities.Schemas.{Cache}
use go_video.Middleware.Lock.{unlock_script, lock, unlock}

pub key_eq_self : (k : Key) → key_eq k k ≡ true
key_eq_self (Key.video_detail n) = ground arith
key_eq_self (Key.video_detail_lock n) = ground arith
key_eq_self (Key.video_entity n) = ground arith
key_eq_self (Key.hot_minute n) = ground arith
key_eq_self (Key.account_token n) = ground arith
key_eq_self (Key.account_refresh n) = ground arith
key_eq_self (Key.refresh_lookup t) = (text_eq_iff t t).1 refl

-- Time passes, and nothing else happens.
abbrev pub elapse : ℕ → State → State
elapse ms s = record s {
  strings = λ k. lasting ms (s.leases k) (s.strings k);
  leases = λ k. less ms (s.leases k);
}

lasting-lease_of :
    (ms ttl : ℕ) (v : Text)
    → lasting ms (lease_of ttl) (some v) ≡ (if ttl == 0 || ltb ms ttl then some v else none)
lasting-lease_of ms ttl v = ground arith

module _ {W : Type 0} (p : Platform W) (cache : Cache p.view) (key : Key) where
  abbrev Entry : Option Text → State → Type 0
  Entry o s = s.strings key ≡ o

  abbrev IsTaken : ℕ → Text → State → Type 0
  IsTaken ttl token s = (s.strings key ≡ some token) × (s.leases key ≡ lease_of ttl)

  -- A lock that is answered as taken was free, and holds the token after.
  taken :
      (ttl : ℕ) (o : Option Text)
      → Ensures p.view
          (Entry o)
          (lock p cache key ttl)
          (λ (token, done) s. done ≡ true → (o ≡ none) × IsTaken ttl token s)
  unfolding lock
  taken ttl o =
      ensures_bind (λ _. Entry o) _ _
        (ensures_performs _ _ (p.rand_read_lem 16) (λ w a s h post. subst (Entry o) (sym post) h))
        (λ token.
          ensures_bind (λ done s. done ≡ true → (o ≡ none) × IsTaken ttl token s) _ _
            (ensures_performs _ _ (cache.set_nx_lem key token ttl) (λ w done s h (free, set) got. (
              is_none_eq o (ap is_none (sym h) ∙ sym free ∙ got),
              rw (set, got, key_eq_self key) (refl, refl),
            )))
            (λ done. ensures_pure (token, done) (λ s h. h)))
    where
      is_none_eq : (x : Option Text) → is_none x ≡ true → x ≡ none
      is_none_eq none e = refl
      is_none_eq (some a) e = absurd (cc e)

  -- Another token does not release the lock.
  kept :
      (token other : Text)
      → text_eq token other ≡ false
      → Keeps p.view (Entry (some token)) (unlock p cache key other)
  unfolding unlock
  kept token other differ =
      Keeps-bind _ _
        (Keeps-performs _ _ (cache.eval_lem (unlock_script key other))
          (λ w n s h (_, set). rw set (script_kept (p.view w).strings h)))
        (λ _. Keeps-pure tt)
    where
      script_kept :
          (f : Key → Option Text)
          → f key ≡ some token
          → (unlock_script key other f).1 key ≡ some token
      script_kept f h = rw (h, differ) h

  -- The token releases the lock.
  released :
      (token : Text)
      → Ensures p.view (Entry (some token)) (unlock p cache key token) (λ _. Entry none)
  unfolding unlock
  released token =
      ensures_bind (λ _. Entry none) _ _
        (ensures_performs _ _ (cache.eval_lem (unlock_script key token))
          (λ w n s h (_, set). rw set (script_done (p.view w).strings h)))
        (λ _. ensures_pure tt (λ s h. h))
    where
      script_done :
          (f : Key → Option Text) → f key ≡ some token → (unlock_script key token f).1 key ≡ none
      script_done f h = rw (h, text_eq_self token, key_eq_self key) refl

  -- A lock that is answered as taken was free before. When `ms` milliseconds pass and nothing else
  -- happens, its entry holds the token if they are fewer than its time to live and is gone otherwise;
  -- a time to live of 0 does not run out. In every world where the entry holds the token,
  -- nobody takes the lock, an unlock with another token leaves it taken, and an unlock with its token
  -- frees it or fails.
  pub lock_exclusive :
      (ttl : ℕ) (token other fresh : Text) (w late : W) (ms : ℕ)
      → (lock p cache key ttl w).0 ≡ ok (token, true)
      → text_eq token other ≡ false
      → (p.view late).strings key ≡ some token
      → ((p.view w).strings key ≡ none)
        × ((elapse ms (p.view (lock p cache key ttl w).1)).strings key
            ≡ (if ttl == 0 || ltb ms ttl then some token else none))
        × ((lock p cache key ttl late).0 ≢ ok (fresh, true))
        × ((p.view (unlock p cache key other late).1).strings key ≡ some token)
        × (((p.view (unlock p cache key token late).1).strings key ≡ none)
            ⊎ ((x : Error) × ((unlock p cache key token late).0 ≡ err x)))
  lock_exclusive ttl token other fresh w late ms done differ there =
      let (free, (entry, lease)) = (taken ttl _).at w refl (token, true) done refl in
      (
        free,
        rw (entry, lease) (lasting-lease_of ms ttl token),
        λ again. cc (((taken ttl _).at late there (fresh, true) again refl).0),
        (kept token other differ).at late there,
        elim (Result-cases (unlock p cache key token late).0) [
          | inl (_, e) ↦ inl ((released token).at late there tt e)
          | inr (x, e) ↦ inr (x, e)
        ],
      )
