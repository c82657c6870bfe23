-- ===== src/Api/Video/Service/Publication.antt =====
-- What Publish leaves in the tables.
use go_video.Prelude.{
  if◌then◌else◌, Act, raise, Act, message, ℕ, ◌≡◌, refl, ap, inl, inr, Bool, true, ◌&&◌, List, [],
  ◌∷◌, ◌++◌, ok, Error, any, any-append, All, arith, ◌==◌, ==_iff, some,
}
use go_video.Prelude.Text.{Text, is_empty, lit, text_eq, text_eq_self}
use go_video.Services.Sql.{any_of_Mem, any_mono}
use go_video.Services.Keeps.{Keeps-time_now}
use go_video.Services.Ensures.{
  Ensures, ensures_bind, ensures_performs, ensures_pure, ensures_keeps, ensures_weaken,
  ensures_transaction, ensures_if, ensures_raise, ensures_any,
}
use go_video.Services.Platform.{Platform}
use go_video.Worker.Outbox.{same_status}
use go_video.Entities.{Video, OutboxMsg, Tag, VideoTag, State, pending}
use go_video.Api.Video.Service.{link_tags, publish_body, publish_trimmed, publish, trimmed, tags_of}

-- The video under its key.
abbrev pub is_published : ℕ → Video → Video → Bool
is_published id v r =
    r.id == id
    && r.author_id == v.author_id
    && text_eq r.username v.username
    && text_eq r.title v.title
    && text_eq r.description v.description
    && text_eq r.play_url v.play_url
    && text_eq r.cover_url v.cover_url

-- A message about the video that waits for the outbox worker.
abbrev pub waits : ℕ → OutboxMsg → Bool
waits id m =
    m.video_id == id && text_eq m.event_type (lit "video_published") && same_status m.status pending

-- A tag of that name that is linked to the video.
abbrev pub links : ℕ → Text → List Tag → VideoTag → Bool
links id name tags l =
    l.video_id == id && any (λ (t : Tag). t.id == l.tag_id && text_eq t.name name) tags

abbrev pub IsLinked : ℕ → State → Text → Type 0
IsLinked id s name = any (links id name s.tags) s.video_tags ≡ true

abbrev IsStored : ℕ → Video → State → Type 0
IsStored id v s = (any (is_published id v) s.videos ≡ true) × (any (waits id) s.outbox ≡ true)

linked_more_tags :
    (id : ℕ) (name : Text) (tags more : List Tag) (ls : List VideoTag)
    → any (links id name tags) ls ≡ true
    → any (links id name (tags ++ more)) ls ≡ true
linked_more_tags id name tags more ls h =
    any_mono _ _ ls
      (λ l e.
        ground (arith, any-append (λ (t : Tag). t.id == l.tag_id && text_eq t.name name) tags more))
      h

All-map :
    {A : Type 0} (P Q : A → Type 0) (xs : List A) → ((x : A) → P x → Q x) → All P xs → All Q xs
All-map P Q [] f h = tt
All-map P Q (x ∷ xs) f h = (f x h.0, All-map P Q xs f h.1)

module _ {W : Type 0} (p : Platform W) (id : ℕ) (v : Video) where
  abbrev Linked : List Text → State → Type 0
  Linked done s = IsStored id v s × All (IsLinked id s) done

  -- A tag of the name is there.
  abbrev HasTag : Text → Tag → State → Type 0
  HasTag name t s = any (λ (x : Tag). x.id == t.id && text_eq x.name name) s.tags ≡ true

  tag_there :
      (done : List Text) (name : Text)
      → Ensures p.view
          (Linked done)
          (p.tags.first_or_create (λ r. text_eq r.name name) (record { id = 0; name = name }))
          (λ t s. Linked done s × HasTag name t s)
  tag_there done name = ensures_performs _ _ (p.tags.first_or_create_lem _ _) (λ w t s h post.
      elim post [
        | inl (named, there, same) ↦ rw same (
          h,
          any_of_Mem (λ (x : Tag). x.id == t.id && text_eq x.name name) there
              (ground (arith, named, (==_iff t.id t.id).1 refl)),
        )
        | inr (_, (k, _, _, new, set)) ↦ rw set (
          (h.0, All-map _ _ done (λ n l. linked_more_tags id n (p.view w).tags (t ∷ []) _ l) h.1),
          ground (
            arith,
            any-append (λ (x : Tag). x.id == t.id && text_eq x.name name) (p.view w).tags (t ∷ []),
            (==_iff t.id t.id).1 refl,
            ap (λ (x : Tag). text_eq x.name name) new,
            text_eq_self name,
          ),
        )
      ])

  link_there :
      (done : List Text) (name : Text) (t : Tag)
      → Ensures p.view
          (λ s. Linked done s × HasTag name t s)
          (p.video_tags.create (record { id = 0; video_id = id; tag_id = t.id }))
          (λ _. Linked (name ∷ done))
  link_there done name t = record {
    at = λ w (h, tagged) k e.
        let more = λ (n : Text). any-append (links id n (p.view w).tags) (p.view w).video_tags in
        elim (p.video_tags.create_lem (record { id = 0; video_id = id; tag_id = t.id }) w) [
          | inl (i, _, _, _, _, set) ↦
              let new : VideoTag = record { id = i; video_id = id; tag_id = t.id } in
              rw set (
                h.0,
                (
                  ground (arith, more name (new ∷ []), (==_iff id id).1 refl, tagged),
                  All-map (IsLinked id (p.view w)) _ done
                      (λ n l. ground (arith, more n (new ∷ []), l)) h.1,
                ),
              )
          | inr (inl (x, _, _)) ↦ absurd (cc (x, e))
          | inr (inr (x, bad, _, _)) ↦ absurd (cc (bad, e))
        ];
  }

  link_tags-Linked :
      (names done : List Text)
      → Ensures p.view
          (Linked done)
          (link_tags p id names)
          (λ _ s. Linked done s × All (IsLinked id s) names)
  unfolding link_tags
  link_tags-Linked [] done = ensures_pure tt (λ s h. (h, tt))
  link_tags-Linked (name ∷ names) done =
      ensures_bind (λ t s. Linked done s × HasTag name t s) _ _ (tag_there done name)
        (λ t.
          ensures_bind (λ _. Linked (name ∷ done)) _ _ (link_there done name t)
            (λ _.
              ensures_weaken _ (λ s h. h)
                (λ _ s ((stored, (first, before)), rest). ((stored, before), (first, rest)))
                (link_tags-Linked names (name ∷ done))))

-- Publish made the video, its message and its links under this key.
abbrev pub IsPublished : (Text → ℕ) → Video → ℕ → State → Type 0
IsPublished word v id s =
    (any (is_published id v) s.videos ≡ true)
    × (any (waits id) s.outbox ≡ true)
    × All (IsLinked id s) (tags_of word v)

module _ {W : Type 0} (p : Platform W) (word : Text → ℕ) (v : Video) where
  row_there :
      (now : ℕ)
      → Ensures p.view
          (λ _. Unit {0})
          (p.videos.create (record v { create_time = now }))
          (λ id s. any (is_published id v) s.videos ≡ true)
  row_there now = record {
    at = λ w h k e. elim (p.videos.create_lem (record v { create_time = now }) w) [
      | inl (i, made, _, _, _, set) ↦
          let same : i ≡ k = cc (made, e) in
          rw (set, ← same)
            (ground (
              arith,
              any-append (is_published i v) (p.view w).videos
                  (record v { id = i; create_time = now } ∷ []),
              (==_iff i i).1 refl,
              (==_iff v.author_id v.author_id).1 refl,
              text_eq_self v.username,
              text_eq_self v.title,
              text_eq_self v.description,
              text_eq_self v.play_url,
              text_eq_self v.cover_url,
            ))
      | inr (inl (x, _, _)) ↦ absurd (cc (x, e))
      | inr (inr (x, bad, _, _)) ↦ absurd (cc (bad, e))
    ];
  }

  message_there :
      (id : ℕ) (m : OutboxMsg)
      → ((k : ℕ) → waits id (record m { id = k }) ≡ true)
      → Ensures p.view
          (λ s. any (is_published id v) s.videos ≡ true)
          (p.outbox.create m)
          (λ _. IsStored id v)
  message_there id m right = record {
    at = λ w h k e. elim (p.outbox.create_lem m w) [
      | inl (i, made, _, _, _, set) ↦ rw set (
        h,
        ground (arith, any-append (waits id) (p.view w).outbox (record m { id = i } ∷ []), right i),
      )
      | inr (inl (x, _, _)) ↦ absurd (cc (x, e))
      | inr (inr (x, bad, _, _)) ↦ absurd (cc (bad, e))
    ];
  }

  waits_new :
      (id : ℕ)
      → (id == id
          && text_eq (lit "video_published") (lit "video_published")
          && same_status pending pending)
        ≡ true
  waits_new id = ground (arith, text_eq_self (lit "video_published"))

  publish_body-IsPublished :
      Ensures p.view
        (λ _. Unit {0})
        (publish_body p word v)
        (λ _ s. (id : ℕ) × IsPublished word v id s)
  unfolding publish_body
  publish_body-IsPublished =
      ensures_bind (λ _ _. Unit {0}) _ _ (ensures_any _)
        (λ now.
          ensures_bind (λ id s. any (is_published id v) s.videos ≡ true) _ _ (row_there _)
            (λ id.
              ensures_bind (λ _ s. any (is_published id v) s.videos ≡ true) _ _
                (ensures_keeps _ (Keeps-time_now p))
                (λ updated.
                  ensures_bind (λ _. IsStored id v) _ _ (message_there id _ (λ k. waits_new id))
                    (λ _.
                      ensures_weaken _ (λ s h. (h, tt))
                        (λ _ s (((row, waiting), _), links). (id, (row, waiting, links)))
                        (link_tags-Linked p id v (tags_of word v) [])))))

  required :
      (t : Text) (e : Error) (m : Act W (Unit {0}))
      → Ensures p.view (λ _. Unit {0}) m (λ _ s. (id : ℕ) × IsPublished word v id s)
      → Ensures p.view
          (λ _. Unit {0})
          (if is_empty t then raise e else m)
          (λ _ s. (id : ℕ) × IsPublished word v id s)
  required t e m h = ensures_if (is_empty t) (raise e) m (λ _. ensures_raise e) (λ _. h)

  publish_trimmed-IsPublished :
      Ensures p.view
        (λ _. Unit {0})
        (publish_trimmed p word v)
        (λ _ s. (id : ℕ) × IsPublished word v id s)
  unfolding publish_trimmed
  publish_trimmed-IsPublished = required v.title (message "title is required") _ (
      required v.play_url (message "play_url is required") _ (
        required v.cover_url (message "cover url is required") _
          (ensures_transaction p.transactions _ publish_body-IsPublished)))

module _ {W : Type 0} (p : Platform W) where
  -- When Publish succeeds, the video stands in its table under some key, trimmed; a message about
  -- that key waits for the outbox worker; and the key is linked to a tag for each tag of its text.
  pub publish_complete :
      (word : Text → ℕ) (v : Video) (w : W)
      → (publish p word (some v) w).0 ≡ ok tt
      → (id : ℕ) × IsPublished word (trimmed v) id (p.view (publish p word (some v) w).1)
  unfolding publish
  publish_complete word v w done = (publish_trimmed-IsPublished p word (trimmed v)).at w tt tt done
