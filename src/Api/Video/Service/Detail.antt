-- ===== src/Api/Video/Service/Detail.antt =====
-- GetDetail against the videos table.
use go_video.Prelude.{
  List, ◌∙◌, ℕ, ◌≡◌, refl, sym, subst, Bool, true, false, Option, none, some, Result, ok, err,
  message, duplicate_key, record_not_found, unauthorized, validation, redis_nil, fault, Act,
  attempt, of_result, arith, ◌>>◌, ◌∙◌, if◌then◌else◌,
}
use go_video.Prelude.Text.{Text}
use go_video.Services.Redis.{
  lease_of, put_lease, Strings, put_string, video_detail, video_detail_lock,
}
use go_video.Services.Keeps.{Keeps, Keeps-performs, Keeps-bind, Keeps-pure, Keeps-attempt}
use go_video.Services.Reads.{ensures_of_result}
use go_video.Services.Ensures.{
  ok_injective, Ensures, ensures_bind, ensures_pure, ensures_keeps, ensures_weaken,
  ensures_answered, ensures_any,
}
use go_video.Services.Platform.{Platform}
use go_video.Entities.{Video, State}
use go_video.Entities.Schemas.{Cache}
use go_video.Middleware.Lock.{lock, unlock, unlock_script}
use go_video.Api.Video.Service.{
  rebuild_locked, by_lock, unless_cached, rebuild, by_bytes, detail_cached, get_detail,
}
use go_video.Api.Video.Service.Entries.{
  IsVersion, IsFresh, IsKnown, IsAnswer, get_entry, get_cache-Known, from_table-Answer,
  or_table-Answer, wait_cached-Known,
}

module _ {W : Type 0} (p : Platform W) (cache : Cache p.view) (history : List Video)
    (decode : Text → Option Video) (encode : Video → Option Text)
    (round_trip : (v : Video) (t : Text) → encode v ≡ some t → decode t ≡ some v)
    (requests : ℕ → Act W Video → Act W Video) (pause : ℕ → Act W (Unit {0}))
    (quiet : (n : ℕ) → Keeps p.view (IsFresh history decode) (pause n)) where
  abbrev Fresh : State → Type 0
  Fresh = IsFresh history decode

  abbrev Known : ℕ → Option Video → State → Type 0
  Known = IsKnown history decode

  abbrev Answer : ℕ → Video → State → Type 0
  Answer = IsAnswer history decode

  -- The entry of a lock is nobody's detail.
  unlock_fresh :
      (id : ℕ) (token : Text) (v : Video)
      → Keeps p.view (Answer id v) (unlock p cache (video_detail_lock id) token)
  unfolding unlock
  unlock_fresh id token v =
      Keeps-bind _ _
        (Keeps-performs _ _ (cache.eval_lem (unlock_script (video_detail_lock id) token))
          (λ w n s h (_, set). rw set (
            (h.0.0, λ j t x there d. h.0.1 j t x (script_keeps j (p.view w).strings ∙ there) d),
            h.1,
          )))
        (λ _. Keeps-pure tt)
    where
      script_keeps :
          (j : ℕ) (f : Strings)
          → f (video_detail j) ≡ (unlock_script (video_detail_lock id) token f).1 (video_detail j)
      script_keeps j f = ground arith

  give_back :
      (id : ℕ) (token : Text) (r : Result Video)
      → Ensures p.view
          (λ s. (v : Video) → r ≡ ok v → Answer id v s)
          (attempt (unlock p cache (video_detail_lock id) token) >> of_result r)
          (Answer id)
  give_back id token (ok v) =
      ensures_bind (λ _. Answer id v) _ _
        (ensures_weaken _ (λ s h. h v refl) (λ _ s h. h)
          (ensures_keeps _ (Keeps-attempt _ (unlock_fresh id token v))))
        (λ _.
          ensures_weaken _ (λ s h. h)
            (λ x s (h, e). subst (λ y. Answer id y s) (ok_injective v x e) h)
            (ensures_of_result (ok v)))
  give_back id token (err e) =
      ensures_bind (λ _ _. Unit {0}) _ _ (ensures_any _)
        (λ _.
          ensures_weaken _ (λ s h. h) (λ x s (h, bad). absurd (cc bad)) (ensures_of_result (err e)))

  rebuild_locked-Answer :
      (id : ℕ) (token : Text)
      → Ensures p.view Fresh
          (rebuild_locked p decode encode requests pause cache id token)
          (Answer id)
  unfolding rebuild_locked
  rebuild_locked-Answer id token =
      ensures_bind (λ r s. (v : Video) → r ≡ ok v → Answer id v s) _ _
        (ensures_answered _ (
          ensures_bind (Known id) _ _
            (get_cache-Known p cache history decode encode round_trip requests pause quiet id)
            (or_table-Answer p cache history decode encode round_trip requests pause quiet id)))
        (give_back id token)

  -- Taking the lock writes no detail.
  lock-Fresh : (id : ℕ) → Keeps p.view Fresh (lock p cache (video_detail_lock id) 2000)
  unfolding lock
  lock-Fresh id =
      Keeps-bind _ _
        (Keeps-performs _ _ (p.rand_read_lem 16) (λ w a s h same. subst Fresh (sym same) h))
        (λ token.
          Keeps-bind _ _
            (Keeps-performs _ _ (cache.set_nx_lem (video_detail_lock id) token 2000)
              (λ w done s h (_, set). subst Fresh (sym set) (either done token (p.view w) h)))
            (λ done. Keeps-pure _))
    where
      either :
          (done : Bool) (token : Text) (s : State)
          → Fresh s
          → Fresh (
              if done
              then record s {
                strings = put_string (video_detail_lock id) (some token) s.strings;
                leases = put_lease (video_detail_lock id) (lease_of 2000) s.leases;
              }
              else s)
      either true token s h = h
      either false token s h = h

  by_lock-Answer :
      (id : ℕ) (r : Result (Text × Bool))
      → Ensures p.view Fresh (by_lock p decode encode requests pause cache id r) (Answer id)
  unfolding by_lock
  by_lock-Answer id (err e) =
      from_table-Answer p cache history decode encode round_trip requests pause quiet id
  by_lock-Answer id (ok (token, true)) = rebuild_locked-Answer id token
  by_lock-Answer id (ok (token, false)) =
      ensures_bind (Known id) _ _
        (ensures_weaken _ (λ s h. (h, λ v e. absurd (cc e))) (λ _ s h. h)
          (wait_cached-Known p cache history decode encode round_trip requests pause quiet id 5
            none))
        (or_table-Answer p cache history decode encode round_trip requests pause quiet id)

  unless_cached-Answer :
      (id : ℕ) (o : Option Video)
      → Ensures p.view
          (Known id o)
          (unless_cached p decode encode requests pause cache id o)
          (Answer id)
  unfolding unless_cached
  unless_cached-Answer id (some v) = ensures_pure v (λ s h. (h.0, h.1 v refl))
  unless_cached-Answer id none =
      ensures_bind (λ _. Fresh) _ _
        (ensures_weaken _ (λ s h. h.0) (λ _ s h. h)
          (ensures_keeps _ (Keeps-attempt _ (lock-Fresh id))))
        (by_lock-Answer id)

  rebuild-Answer :
      (id : ℕ) → Ensures p.view Fresh (rebuild p decode encode requests pause cache id) (Answer id)
  unfolding rebuild
  rebuild-Answer id =
      ensures_bind (Known id) _ _
        (get_cache-Known p cache history decode encode round_trip requests pause quiet id)
        (unless_cached-Answer id)

  -- `shared` is what singleflight says of Do: what a caller gets is what one run of the function
  -- answered, its own or one that another caller started before, with the invariant where that run
  -- started; and the invariant that the run left is there when the answer arrives.
  module _
      (shared : (id : ℕ) (m : Act W Video) (w : W) (v : Video)
        → Fresh (p.view w)
        → (requests id m w).0 ≡ ok v
        → (b : W) × Fresh (p.view b)
          × ((m b).0 ≡ ok v)
          × (Fresh (p.view (m b).1) → Fresh (p.view (requests id m w).1))) where
    requests-Answer :
        (id : ℕ)
        → Ensures p.view Fresh
            (requests id (rebuild p decode encode requests pause cache id))
            (Answer id)
    requests-Answer id = record {
      at = λ w h v done.
          let (b, fresh, answered, after) =
            shared id (rebuild p decode encode requests pause cache id) w v h done in
          let (still, version) = (rebuild-Answer id).at b fresh v answered in
          (after still, version);
    }

    by_bytes-Answer :
        (id : ℕ) (r : Result Text)
        → Ensures p.view
            (λ s.
              Fresh s
              × ((t : Text) → r ≡ ok t → (v : Video) → decode t ≡ some v → IsVersion history id v))
            (by_bytes p decode encode requests pause cache id r)
            (Answer id)
    unfolding by_bytes
    by_bytes-Answer id (ok t) =
        ensures_weaken _ (λ s h. (h.0, h.1 t refl)) (λ _ s h. h)
          (or_table-Answer p cache history decode encode round_trip requests pause quiet id
            (decode t))
    by_bytes-Answer id (err redis_nil) =
        ensures_weaken _ (λ s h. h.0) (λ _ s h. h) (requests-Answer id)
    by_bytes-Answer id (err (message t)) =
        ensures_weaken _ (λ s h. h.0) (λ _ s h. h)
          (from_table-Answer p cache history decode encode round_trip requests pause quiet id)
    by_bytes-Answer id (err duplicate_key) =
        ensures_weaken _ (λ s h. h.0) (λ _ s h. h)
          (from_table-Answer p cache history decode encode round_trip requests pause quiet id)
    by_bytes-Answer id (err record_not_found) =
        ensures_weaken _ (λ s h. h.0) (λ _ s h. h)
          (from_table-Answer p cache history decode encode round_trip requests pause quiet id)
    by_bytes-Answer id (err unauthorized) =
        ensures_weaken _ (λ s h. h.0) (λ _ s h. h)
          (from_table-Answer p cache history decode encode round_trip requests pause quiet id)
    by_bytes-Answer id (err validation) =
        ensures_weaken _ (λ s h. h.0) (λ _ s h. h)
          (from_table-Answer p cache history decode encode round_trip requests pause quiet id)
    by_bytes-Answer id (err (fault n)) =
        ensures_weaken _ (λ s h. h.0) (λ _ s h. h)
          (from_table-Answer p cache history decode encode round_trip requests pause quiet id)

    detail_cached-Answer :
        (id : ℕ)
        → Ensures p.view Fresh
            (detail_cached p decode encode requests pause (some cache) id)
            (Answer id)
    unfolding detail_cached
    detail_cached-Answer id =
        ensures_bind _ _ _
          (get_entry p cache history decode encode round_trip requests pause quiet id)
          (by_bytes-Answer id)

    -- Let the history have every row of the videos table, and let every entry of a video's detail
    -- that can be read be one of that video's rows in it. Then what GetDetail answers with redis is
    -- one of that video's rows in the history, which may be older than the one in the table; and the
    -- entries stay so.
    pub get_detail_refines :
        (id : ℕ) (v : Video) (w : W)
        → p.redis ≡ some cache
        → IsFresh history decode (p.view w)
        → (get_detail p decode encode requests pause id w).0 ≡ ok v
        → IsFresh history decode (p.view (get_detail p decode encode requests pause id w).1)
          × IsVersion history id v
    unfolding get_detail
    get_detail_refines id v w has_redis fresh done =
        (subst
            (λ c.
              Ensures p.view Fresh (detail_cached p decode encode requests pause c id) (Answer id))
            (sym has_redis) (detail_cached-Answer id)).at
          w fresh v done
