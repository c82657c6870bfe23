-- ===== src/Api/Notification/Safety.antt =====
-- The hub in any order of calls.
use go_video.Prelude.{
  ℕ, ◌≤◌, ◌<◌, ◌≡◌, ◌≢◌, refl, sym, subst, ◌∙◌, ltb, ◌==◌, ==_iff, Bool-cases, true, false, List,
  [], ◌∷◌, ◌++◌, length, length-append, drop, ◌⊎◌, inl, inr, arith, ◌||◌,
}
use go_video.Entities.{Notification}
use go_video.Api.Notification.{
  SseHub, update, new_hub, subscribe, remove_first, listed, unsubscribe, offer, receive,
}

abbrev pub Distinct : List ℕ → Type 0
Distinct [] = Unit
Distinct (c ∷ cs) = (listed c cs ≡ false) × Distinct cs

listed-append : (c d : ℕ) (cs : List ℕ) → listed c (cs ++ d ∷ []) ≡ listed c cs || d == c
listed-append c d [] = ground arith
listed-append c d (e ∷ cs) = ground (arith, listed-append c d cs)

listed-remove_first :
    (c d : ℕ) (cs : List ℕ) → listed c (remove_first d cs) ≡ true → listed c cs ≡ true
listed-remove_first c d [] h = h
listed-remove_first c d (e ∷ cs) h = ground (arith, listed-remove_first c d cs)

removed_first : (d : ℕ) (cs : List ℕ) → Distinct cs → listed d (remove_first d cs) ≡ false
removed_first d [] h = refl
removed_first d (e ∷ cs) h = elim (Bool-cases (e == d)) [
  | inl same ↦ rw (same, ← (==_iff e d).0 same) h.0
  | inr other ↦ rw (other, other) (removed_first d cs h.1)
]

not_listed : (c d : ℕ) (cs : List ℕ) → listed c cs ≡ false → listed c (remove_first d cs) ≡ false
not_listed c d cs h = elim (Bool-cases (listed c (remove_first d cs))) [
  | inl e ↦ absurd (cc (listed-remove_first c d cs e, h))
  | inr e ↦ e
]

Distinct-remove_first : (d : ℕ) (cs : List ℕ) → Distinct cs → Distinct (remove_first d cs)
Distinct-remove_first d [] h = tt
Distinct-remove_first d (e ∷ cs) h = elim (Bool-cases (e == d)) [
  | inl same ↦ rw same h.1
  | inr other ↦ rw other (not_listed e d cs h.0, Distinct-remove_first d cs h.1)
]

Distinct-append :
    (d : ℕ) (cs : List ℕ) → listed d cs ≡ false → Distinct cs → Distinct (cs ++ d ∷ [])
Distinct-append d [] h k = (refl, tt)
Distinct-append d (e ∷ cs) h k =
    (ground (arith, listed-append e d cs), Distinct-append d cs (ground arith) k.1)

-- Every listed channel is open and stands in one list, once; no buffer is over its size.
pub record IsSound (h : SseHub) : Type 0 where
  pub open_if_listed : (u c : ℕ) → listed c (h.clients u) ≡ true → h.closed c ≡ false
  pub made : (u c : ℕ) → listed c (h.clients u) ≡ true → c < h.next
  pub fresh : (c : ℕ) → h.next ≤ c → h.closed c ≡ false
  pub owner : (u v c : ℕ) → listed c (h.clients u) ≡ true → listed c (h.clients v) ≡ true → u ≡ v
  pub once : (u : ℕ) → Distinct (h.clients u)
  pub bounded : (c : ℕ) → length (h.buffer c) ≤ 20

pub new_hub-IsSound : IsSound new_hub
new_hub-IsSound = record {
  open_if_listed = λ u c e. refl;
  made = λ u c e. absurd (cc e);
  fresh = λ c e. refl;
  owner = λ u v c e f. absurd (cc e);
  once = λ u. tt;
  bounded = λ c. omega arith;
}

offer_bounded : (n : Notification) (b : List Notification) → length b ≤ 20 → length (offer n b) ≤ 20
offer_bounded n b h = elim (Bool-cases (ltb (length b) 20)) [
  | inl e ↦ rw e (ground (arith, length-append b (n ∷ [])))
  | inr e ↦ rw e h
]

drop_bounded : (b : List Notification) → length b ≤ 20 → length (drop 1 b) ≤ 20
drop_bounded [] h = omega arith
drop_bounded (n ∷ b) h = omega arith

module _ (h : SseHub) (sound : IsSound h) where
  pub receive-IsSound : (c : ℕ) → IsSound (receive c h)
  unfolding receive
  receive-IsSound c = record {
    open_if_listed = sound.open_if_listed;
    made = sound.made;
    fresh = sound.fresh;
    owner = sound.owner;
    once = sound.once;
    bounded = λ d. elim (Bool-cases (d == c)) [
      | inl e ↦ rw e (drop_bounded _ (sound.bounded c))
      | inr e ↦ rw e (sound.bounded d)
    ];
  }

  pub sent-IsSound :
      (c : ℕ) (n : Notification)
      → IsSound (record h { buffer = update h.buffer c (offer n (h.buffer c)) })
  sent-IsSound c n = record {
    open_if_listed = sound.open_if_listed;
    made = sound.made;
    fresh = sound.fresh;
    owner = sound.owner;
    once = sound.once;
    bounded = λ d. elim (Bool-cases (d == c)) [
      | inl e ↦ rw e (offer_bounded n _ (sound.bounded c))
      | inr e ↦ rw e (sound.bounded d)
    ];
  }

  -- Where a channel is listed after a subscription.
  subscribed :
      (user u c : ℕ)
      → listed c ((subscribe user h).1.clients u) ≡ true
      → (listed c (h.clients u) ≡ true) ⊎ ((u ≡ user) × (c ≡ h.next))
  unfolding subscribe
  subscribed user u c e = elim (Bool-cases (u == user)) [
    | inl same ↦ elim (Bool-cases (listed c (h.clients user))) [
      | inl old ↦ inl (rw ((==_iff u user).0 same) old)
      | inr new ↦ inr (
        (==_iff u user).0 same,
        ground (arith, listed-append c h.next (h.clients user), rw same at e),
      )
    ]
    | inr other ↦ inl (rw other at e)
  ]

  not_made : (u : ℕ) → listed h.next (h.clients u) ≡ false
  not_made u = elim (Bool-cases (listed h.next (h.clients u))) [
    | inl e ↦ absurd (omega (arith, sound.made u h.next e))
    | inr e ↦ e
  ]

  pub subscribe-IsSound : (user : ℕ) → IsSound (subscribe user h).1
  unfolding subscribe
  subscribe-IsSound user = record {
    open_if_listed = λ u c e. elim (subscribed user u c e) [
      | inl old ↦ sound.open_if_listed u c old
      | inr (_, new) ↦ sound.fresh c (omega arith)
    ];
    made = λ u c e. elim (subscribed user u c e) [
      | inl old ↦ omega (arith, sound.made u c old)
      | inr (_, new) ↦ omega arith
    ];
    fresh = λ c e. sound.fresh c (omega arith);
    owner = λ u v c e f. both u v c (subscribed user u c e) (subscribed user v c f);
    once = λ u. elim (Bool-cases (u == user)) [
      | inl same ↦ rw same (Distinct-append h.next _ (not_made user) (sound.once user))
      | inr other ↦ rw other (sound.once u)
    ];
    bounded = sound.bounded;
  }
    where
      both :
          (u v c : ℕ)
          → (listed c (h.clients u) ≡ true) ⊎ ((u ≡ user) × (c ≡ h.next))
          → (listed c (h.clients v) ≡ true) ⊎ ((v ≡ user) × (c ≡ h.next))
          → u ≡ v
      both u v c (inl e) (inl f) = sound.owner u v c e f
      both u v c (inl e) (inr (_, new)) = absurd (omega (arith, sound.made u c e))
      both u v c (inr (_, new)) (inl f) = absurd (omega (arith, sound.made v c f))
      both u v c (inr (e, _)) (inr (f, _)) = e ∙ sym f

  module _ (user c : ℕ) where
    -- What is listed after an unsubscription was listed before, and is another channel.
    unsubscribed :
        (u d : ℕ)
        → listed c (h.clients user) ≡ true
        → listed d (update h.clients user (remove_first c (h.clients user)) u) ≡ true
        → (listed d (h.clients u) ≡ true) × (d ≢ c)
    unsubscribed u d was e = elim (Bool-cases (u == user)) [
      | inl same ↦
          let left : listed d (remove_first c (h.clients user)) ≡ true = rw same at e in
          (
            rw ((==_iff u user).0 same) (listed-remove_first d c _ left),
            λ equal. cc (rw equal at left, removed_first c (h.clients user) (sound.once user)),
          )
      | inr other ↦
          let left : listed d (h.clients u) ≡ true = rw other at e in
          (
            left,
            λ equal. ground (
              arith,
              ==_iff u user,
              sound.owner u user c (subst (λ x. listed x (h.clients u) ≡ true) equal left) was,
            ),
          )
    ]

    removed-IsSound :
        listed c (h.clients user) ≡ true
        → IsSound (record h {
          clients = update h.clients user (remove_first c (h.clients user));
          closed = update h.closed c true;
        })
    removed-IsSound was = record {
      open_if_listed = λ u d e.
          let (there, other) = unsubscribed u d was e in
          elim (Bool-cases (d == c)) [
            | inl same ↦ absurd (other ((==_iff d c).0 same))
            | inr differ ↦ rw differ (sound.open_if_listed u d there)
          ];
      made = λ u d e. sound.made u d (unsubscribed u d was e).0;
      fresh = λ d e. elim (Bool-cases (d == c)) [
        | inl same ↦ absurd (omega (arith, sound.made user c was, (==_iff d c).0 same))
        | inr differ ↦ rw differ (sound.fresh d e)
      ];
      owner = λ u v d e f. sound.owner u v d (unsubscribed u d was e).0 (unsubscribed v d was f).0;
      once = λ u. elim (Bool-cases (u == user)) [
        | inl same ↦ rw same (Distinct-remove_first c _ (sound.once user))
        | inr other ↦ rw other (sound.once u)
      ];
      bounded = sound.bounded;
    }

    pub unsubscribe-IsSound : IsSound (unsubscribe user c h)
    unfolding unsubscribe
    unsubscribe-IsSound = elim (Bool-cases (listed c (h.clients user))) [
      | inl was ↦ rw was (removed-IsSound was)
      | inr not_there ↦ rw not_there sound
    ]
