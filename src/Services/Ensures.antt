-- ===== src/Services/Ensures.antt =====
-- What holds when an action succeeds, with one rule for each way to build an action.
use go_video.Prelude.{
  is_ok, Result-cases, inl, inr, inr, inl, ◌∙◌, sym, subst, ◌≡◌, refl, Bool, true, false, Error,
  Result, ok, err, Act, pure, raise, attempt, continue, ◌>>=◌, if◌then◌else◌,
}
use go_video.Services.Sql.{Performs, answered, refused, Transactions}
use go_video.Services.Keeps.{Keeps}

-- Started where `P` holds, `m` either fails or answers `a` where `Q a` holds.
pub record Ensures {W S A : Type 0} (view : W → S) (P : S → Type 0) (m : Act W A)
    (Q : A → S → Type 0) : Type 0 where
  pub at : (w : W) → P (view w) → (a : A) → (m w).0 ≡ ok a → Q a (view (m w).1)

pub ok_injective : {A : Type 0} (a b : A) → ok a ≡ ok b → a ≡ b
ok_injective a b e = cc

pub continue_ok :
    {W A B : Type 0} (r : Result A) (f : A → Act W B) (w : W) (b : B)
    → (continue r f w).0 ≡ ok b
    → (a : A) × (r ≡ ok a) × ((f a w).0 ≡ ok b) × ((continue r f w).1 ≡ (f a w).1)
continue_ok (ok a) f w b h = (a, refl, h, refl)
continue_ok (err e) f w b h = absurd (cc h)

module _ {W S : Type 0} {view : W → S} where
  pub ensures_pure :
      {A : Type 0} {P : S → Type 0} {Q : A → S → Type 0} (a : A)
      → ((s : S) → P s → Q a s)
      → Ensures view P (pure a) Q
  unfolding ◌>>=◌
  ensures_pure {Q = Q} a h = record {
    at = λ w x b e. subst (λ c. Q c (view w)) (ok_injective a b e) (h (view w) x);
  }

  pub ensures_raise :
      {A : Type 0} {P : S → Type 0} {Q : A → S → Type 0} (e : Error) → Ensures view P (raise e) Q
  unfolding ◌>>=◌
  ensures_raise e = record { at = λ w x b h. absurd (cc h) }

  pub ensures_if :
      {A : Type 0} {P : S → Type 0} {Q : A → S → Type 0} (b : Bool) (m n : Act W A)
      → (b ≡ true → Ensures view P m Q)
      → (b ≡ false → Ensures view P n Q)
      → Ensures view P (if b then m else n) Q
  ensures_if true m n hm hn = hm refl
  ensures_if false m n hm hn = hn refl

  -- Both outcomes of a call whose error is looked at.
  pub ensures_attempt :
      {A : Type 0} {P : S → Type 0} {Q : Result A → S → Type 0} (m : Act W A)
      → ((w : W) → P (view w) → Q (m w).0 (view (m w).1))
      → Ensures view P (attempt m) Q
  unfolding ◌>>=◌
  ensures_attempt {Q = Q} m h = record {
    at = λ w x r e. subst (λ c. Q c (view (m w).1)) (ok_injective (m w).0 r e) (h w x);
  }

  pub ensures_keeps :
      {A : Type 0} {P : S → Type 0} (m : Act W A) → Keeps view P m → Ensures view P m (λ _. P)
  ensures_keeps m k = record { at = λ w x a e. k.at w x }

  pub ensures_performs :
      {A : Type 0} {P : S → Type 0} {Q : A → S → Type 0} (m : Act W A) (Post : W → A → S → Type 0)
      → ((w : W) → Performs view w (m w) (Post w))
      → ((w : W) (a : A) (s : S) → P (view w) → Post w a s → Q a s)
      → Ensures view P m Q
  ensures_performs {Q = Q} m Post law step = record {
    at = λ w x b h. elim (law w) [
      | answered a e post ↦
          subst (λ c. Q c (view (m w).1)) (ok_injective a b (sym e ∙ h)) (step w a _ x post)
      | refused z e same ↦ absurd (cc (e, h))
    ];
  }

  pub ensures_bind :
      {A B : Type 0} {P : S → Type 0} (Q : A → S → Type 0) {R : B → S → Type 0} (m : Act W A)
      (f : A → Act W B)
      → Ensures view P m Q
      → ((a : A) → Ensures view (Q a) (f a) R)
      → Ensures view P (m >>= f) R
  unfolding ◌>>=◌
  ensures_bind Q {R = R} m f hm hf = record {
    at = λ w x b h.
        let (a, e, h', s) = continue_ok (m w).0 f (m w).1 b h in
        subst (λ v. R b (view v)) (sym s) ((hf a).at (m w).1 (hm.at w x a e) b h');
  }

  -- A transaction that is committed ensures what its body does.
  pub ensures_transaction :
      {P : S → Type 0} {Q : S → Type 0} (txs : Transactions view) (body : Act W (Unit {0}))
      → Ensures view P body (λ _. Q)
      → Ensures view P (txs.transaction body) (λ _. Q)
  ensures_transaction {P = P} {Q = Q} txs body h = record {
    at = λ w start a done.
        let (b, same, cases) = txs.transaction_lem body w in
        elim cases [
          | inl (_, e, after) ↦ subst Q (sym after) (h.at b (subst P (sym same) start) tt e)
          | inr (inl (_, e, _, _)) ↦ absurd (cc (e, done))
          | inr (inr (_, e, _)) ↦ absurd (cc (e, done))
        ];
  }

  pub ensures_weaken :
      {A : Type 0} {P P' : S → Type 0} {Q Q' : A → S → Type 0} (m : Act W A)
      → ((s : S) → P' s → P s)
      → ((a : A) (s : S) → Q a s → Q' a s)
      → Ensures view P m Q
      → Ensures view P' m Q'
  ensures_weaken m pre post h = record {
    at = λ w x a e. post a (view (m w).1) (h.at w (pre (view w) x) a e);
  }

  pub ensures_some :
      {A N : Type 0} {P : N → S → Type 0} {Q : A → S → Type 0} (m : Act W A)
      → ((n : N) → Ensures view (P n) m Q)
      → Ensures view (λ s. (n : N) × P n s) m Q
  ensures_some m h = record { at = λ w x a e. (h x.0).at w x.1 a e }

-- What a call that may have failed brought about, if it did not.
abbrev pub IfDone : {S : Type 0} → (S → Type 0) → Bool → S → Type 0
IfDone Q true = Q
IfDone Q false = λ _. Unit {0}

module _ {W S : Type 0} {view : W → S} where
  pub ensures_try :
      {A : Type 0} {P Q : S → Type 0} (m : Act W A)
      → Ensures view P m (λ _. Q)
      → Ensures view P (attempt m) (λ r. IfDone Q (is_ok r))
  ensures_try {Q = Q} m h = ensures_attempt m (λ w x. elim (Result-cases (m w).0) [
    | inl (a, e) ↦ rw e (h.at w x a e)
    | inr (z, e) ↦ rw e tt
  ])

  -- A call of which nothing need be known.
  pub ensures_any : {A : Type 0} {P : S → Type 0} (m : Act W A) → Ensures view P m (λ _ _. Unit {0})
  ensures_any m = record { at = λ w x a e. tt }

  -- A call whose error is looked at: what it ensures holds of its answer, if there is one.
  pub ensures_answered :
      {A : Type 0} {P : S → Type 0} {Q : A → S → Type 0} (m : Act W A)
      → Ensures view P m Q
      → Ensures view P (attempt m) (λ r s. (a : A) → r ≡ ok a → Q a s)
  ensures_answered m h = ensures_attempt m (λ w x a e. h.at w x a e)
