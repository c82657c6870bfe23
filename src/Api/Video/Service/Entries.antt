-- ===== src/Api/Video/Service/Entries.antt =====
-- The entries of a video's detail in redis, and the calls of GetDetail that read and write them.
use go_video.Prelude.{
  List, ℕ, zero, suc, ◌≡◌, refl, sym, subst, ap, inl, inr, Bool-cases, true, Option, none, some,
  Result, ok, err, Act, attempt, arith, ◌==◌, ==_iff,
}
use mathlib.Core.List.{Memᴰ}
use go_video.Prelude.Text.{Text}
use go_video.Services.Redis.{put_string, video_detail}
use go_video.Services.Keeps.{Keeps, Keeps-performs, Keeps-attempt}
use go_video.Services.Reads.{ensures_first}
use go_video.Services.Ensures.{
  Ensures, ensures_bind, ensures_pure, ensures_keeps, ensures_weaken, ensures_attempt,
}
use go_video.Services.Platform.{Platform}
use go_video.Entities.{Video, State}
use go_video.Entities.Schemas.{Cache}
use go_video.Api.Video.Service.{
  get_cache, set_cache, set_bytes, from_table, or_table, wait_cached, decoded,
}

-- A row of the video, in a history of the videos table: a list of rows that stood in it.
abbrev pub IsVersion : List Video → ℕ → Video → Type 0
IsVersion history id v = ((v.id == id) ≡ true) × Memᴰ v history

-- The history has every row of the table, and every entry of a video's detail that can be read is
-- one of that video's rows in the history.
abbrev pub IsFresh : List Video → (Text → Option Video) → State → Type 0
IsFresh history decode s =
    ((v : Video) → Memᴰ v s.videos → Memᴰ v history)
    × ((id : ℕ) (t : Text) (v : Video)
        → s.strings (video_detail id) ≡ some t
        → decode t ≡ some v
        → IsVersion history id v)

-- What a read of the cache is known to be.
abbrev pub IsKnown : List Video → (Text → Option Video) → ℕ → Option Video → State → Type 0
IsKnown history decode id o s =
    IsFresh history decode s × ((v : Video) → o ≡ some v → IsVersion history id v)

abbrev pub IsAnswer : List Video → (Text → Option Video) → ℕ → Video → State → Type 0
IsAnswer history decode id v s = IsFresh history decode s × IsVersion history id v

module _ {W : Type 0} (p : Platform W) (cache : Cache p.view) (history : List Video)
    (decode : Text → Option Video) (encode : Video → Option Text)
    (round_trip : (v : Video) (t : Text) → encode v ≡ some t → decode t ≡ some v)
    (requests : ℕ → Act W Video → Act W Video) (pause : ℕ → Act W (Unit {0}))
    (quiet : (n : ℕ) → Keeps p.view (IsFresh history decode) (pause n)) where
  abbrev Fresh : State → Type 0
  Fresh = IsFresh history decode

  abbrev Known : ℕ → Option Video → State → Type 0
  Known = IsKnown history decode

  abbrev Answer : ℕ → Video → State → Type 0
  Answer = IsAnswer history decode

  pub get_entry :
      (id : ℕ)
      → Ensures p.view Fresh (attempt (cache.get (video_detail id))) (λ r s.
        Fresh s
        × ((t : Text) → r ≡ ok t → (v : Video) → decode t ≡ some v → IsVersion history id v))
  get_entry id = ensures_attempt _ (λ w h.
      let (same, cases) = cache.get_lem (video_detail id) w in
      rw same (
        h,
        λ t e v d. elim cases [
          | inl (u, e', there) ↦ h.1 id t v (cc (there, e, e')) d
          | inr (inl (e', _)) ↦ absurd (cc (e, e'))
          | inr (inr (n, e')) ↦ absurd (cc (e, e'))
        ],
      ))

  pub get_cache-Known :
      (id : ℕ) → Ensures p.view Fresh (get_cache p decode encode requests pause cache id) (Known id)
  unfolding get_cache
  get_cache-Known id =
      ensures_bind
        (λ r s.
          Fresh s
          × ((t : Text) → r ≡ ok t → (v : Video) → decode t ≡ some v → IsVersion history id v))
        _ _ (get_entry id) (λ r. ensures_pure _ (λ s h. (h.0, read r s h.1)))
    where
      read :
          (r : Result Text) (s : State)
          → ((t : Text) → r ≡ ok t → (v : Video) → decode t ≡ some v → IsVersion history id v)
          → (v : Video) → decoded p decode encode requests pause r ≡ some v
          → IsVersion history id v
      read (ok t) s h v e = h t refl v e
      read (err x) s h v e = absurd (cc e)

  -- A row goes into the cache under its id.
  put_fresh :
      (id : ℕ) (v : Video) (t : Text) (s : State)
      → encode v ≡ some t
      → Answer id v s
      → Answer id v (record s { strings = put_string (video_detail id) (some t) s.strings })
  put_fresh id v t s e ((rows, fresh), row) = ((rows, by_id), row)
    where
      by_id :
          (j : ℕ) (u : Text) (x : Video)
          → put_string (video_detail id) (some t) s.strings (video_detail j) ≡ some u
          → decode u ≡ some x
          → IsVersion history j x
      by_id j u x there d = elim (Bool-cases (j == id)) [
        | inl same ↦
            let found : u ≡ t = cc (rw same at there) in
            let equal : x ≡ v = cc (rw found at d, round_trip v t e) in
            (
              ground
                  (arith, ==_iff j id, ap (λ (y : Video). y.id) equal, row.0, same, ==_iff v.id id),
              subst (λ y. Memᴰ y history) (sym equal) row.1,
            )
        | inr other ↦ fresh j u x (rw other at there) d
      ]

  set_bytes-Answer :
      (id : ℕ) (v : Video) (o : Option Text)
      → encode v ≡ o
      → Ensures p.view
          (Answer id v)
          (set_bytes p decode encode requests pause cache id o)
          (λ _. Answer id v)
  unfolding set_bytes
  set_bytes-Answer id v none e = ensures_pure tt (λ s h. h)
  set_bytes-Answer id v (some t) e =
      ensures_bind (λ _. Answer id v) _ _
        (ensures_keeps _ (
          Keeps-attempt _ (
            Keeps-performs _ _ (cache.set_lem (video_detail id) t 300000)
              (λ w a s h set. subst (Answer id v) (sym set) (put_fresh id v t (p.view w) e h)))))
        (λ _. ensures_pure tt (λ s h. h))

  pub from_table-Answer :
      (id : ℕ)
      → Ensures p.view Fresh (from_table p decode encode requests pause cache id) (Answer id)
  unfolding from_table set_cache
  from_table-Answer id =
      ensures_bind (λ v s. Fresh s × ((v.id == id) ≡ true) × Memᴰ v s.videos) _ _
        (ensures_first p.videos (λ v. v.id == id))
        (λ v.
          ensures_bind (λ _. Answer id v) _ _
            (ensures_weaken _ (λ s h. (h.0, (h.1, h.0.0 v h.2))) (λ _ s h. h)
              (set_bytes-Answer id v (encode v) refl))
            (λ _. ensures_pure v (λ s h. h)))

  pub or_table-Answer :
      (id : ℕ) (o : Option Video)
      → Ensures p.view (Known id o) (or_table p decode encode requests pause cache id o) (Answer id)
  unfolding or_table
  or_table-Answer id (some v) = ensures_pure v (λ s h. (h.0, h.1 v refl))
  or_table-Answer id none = ensures_weaken _ (λ s h. h.0) (λ _ s h. h) (from_table-Answer id)

  pub wait_cached-Known :
      (id n : ℕ) (o : Option Video)
      → Ensures p.view
          (Known id o)
          (wait_cached p decode encode requests pause cache id n o)
          (Known id)
  unfolding wait_cached
  wait_cached-Known id zero none = ensures_pure none (λ s h. h)
  wait_cached-Known id zero (some v) = ensures_pure (some v) (λ s h. h)
  wait_cached-Known id (suc n) (some v) = ensures_pure (some v) (λ s h. h)
  wait_cached-Known id (suc n) none =
      ensures_bind (λ _. Fresh) _ _
        (ensures_weaken _ (λ s h. h.0) (λ _ s h. h) (ensures_keeps _ (quiet 20)))
        (λ _. ensures_bind (Known id) _ _ (get_cache-Known id) (λ o. wait_cached-Known id n o))
