-- ===== src/Services/Keeps.antt =====
-- Invariants of actions on the visible state, with one rule for each way to build an action.
use go_video.Prelude.{
  refl, ◌≡◌, inr, inl, ℕ, List, ◌≡◌, sym, subst, Bool, true, false, Error, Result, ok, err, Act,
  pure, raise, of_result, attempt, continue, ◌>>=◌, if◌then◌else◌,
}
use go_video.Entities.{State}
use go_video.Services.Platform.{Platform, time_now}
use go_video.Services.Sql.{Lens, Schema, Table, Transactions, Performs, answered, refused}

-- `m` keeps `P` of what can be seen, whether it succeeds or fails.
pub record Keeps {W S A : Type 0} (view : W → S) (P : S → Type 0) (m : Act W A) : Type 0 where
  pub at : (w : W) → P (view w) → P (view (m w).1)

module _ {W S : Type 0} {view : W → S} {P : S → Type 0} where
  pub Keeps-pure : {A : Type 0} (a : A) → Keeps view P (pure a)
  unfolding ◌>>=◌
  Keeps-pure a = record { at = λ w h. h }

  pub Keeps-raise : {A : Type 0} (e : Error) → Keeps view P (raise {A = A} e)
  unfolding ◌>>=◌
  Keeps-raise e = record { at = λ w h. h }

  pub Keeps-of_result : {A : Type 0} (r : Result A) → Keeps view P (of_result r)
  unfolding ◌>>=◌
  Keeps-of_result r = record { at = λ w h. h }

  pub Keeps-attempt : {A : Type 0} (m : Act W A) → Keeps view P m → Keeps view P (attempt m)
  unfolding ◌>>=◌
  Keeps-attempt m k = record { at = k.at }

  pub Keeps-if :
      {A : Type 0} (b : Bool) (m n : Act W A)
      → Keeps view P m
      → Keeps view P n
      → Keeps view P (if b then m else n)
  Keeps-if true m n km kn = km
  Keeps-if false m n km kn = kn

  -- The branch that is taken knows the test's value.
  pub Keeps-if_known :
      {A : Type 0} (b : Bool) (m n : Act W A)
      → (b ≡ true → Keeps view P m)
      → (b ≡ false → Keeps view P n)
      → Keeps view P (if b then m else n)
  Keeps-if_known true m n km kn = km refl
  Keeps-if_known false m n km kn = kn refl

  Keeps-continue :
      {A B : Type 0} (r : Result A) (f : A → Act W B)
      → ((a : A) → Keeps view P (f a))
      → Keeps view P (continue r f)
  Keeps-continue (ok a) f k = k a
  Keeps-continue (err e) f k = record { at = λ w h. h }

  pub Keeps-bind :
      {A B : Type 0} (m : Act W A) (f : A → Act W B)
      → Keeps view P m
      → ((a : A) → Keeps view P (f a))
      → Keeps view P (m >>= f)
  unfolding ◌>>=◌
  Keeps-bind m f km kf = record {
    at = λ w h. let (r, w') = m w in (Keeps-continue r f kf).at w' (km.at w h);
  }

  -- A call that changes nothing or makes one known change.
  pub Keeps-performs :
      {A : Type 0} (m : Act W A) (Post : W → A → S → Type 0)
      → ((w : W) → Performs view w (m w) (Post w))
      → ((w : W) (a : A) (s : S) → P (view w) → Post w a s → P s)
      → Keeps view P m
  Keeps-performs m Post law step = record {
    at = λ w h. elim (law w) [
      | answered a e post ↦ step w a _ h post
      | refused x e same ↦ subst P (sym same) h
    ];
  }

pub ruleset keeps_rules =
    (Keeps-pure, Keeps-raise, Keeps-of_result, Keeps-attempt, Keeps-if, Keeps-bind)

module _ {W : Type 0} {P : State → Type 0} (p : Platform W) where
  pub Keeps-time_now : Keeps p.view P (time_now p)
  unfolding time_now
  Keeps-time_now = record { at = λ w h. h }

-- The reads of a table.
module _ {W S Row : Type 0} {view : W → S} {schema : Schema Row} {at : Lens S (List Row)}
    {P : S → Type 0} (table : Table view Row schema at) where
  pub Keeps-first : (q : Row → Bool) → Keeps view P (table.first q)
  Keeps-first q = record {
    at = λ w h. elim (table.first_lem q w) [
      | inl (_, _, _, _, same) ↦ subst P (sym same) h
      | inr (inl (_, _, same)) ↦ subst P (sym same) h
      | inr (inr (_, _, _, same)) ↦ subst P (sym same) h
    ];
  }

  pub Keeps-find : (q : Row → Bool) → Keeps view P (table.find q)
  Keeps-find q = Keeps-performs _ _ (table.find_lem q) (λ w a s h post. subst P (sym post.1) h)

  pub Keeps-count_rows : (q : Row → Bool) → Keeps view P (table.count_rows q)
  Keeps-count_rows q =
      Keeps-performs _ _ (table.count_rows_lem q) (λ w a s h post. subst P (sym post.1) h)

  pub Keeps-find_ordered :
      (q : Row → Bool) (le : Row → Row → Bool) (n : ℕ) → Keeps view P (table.find_ordered q le n)
  Keeps-find_ordered q le n =
      Keeps-performs _ _ (table.find_ordered_lem q le n) (λ w a s h post. subst P (sym post.1) h)

module _ {W S : Type 0} {view : W → S} {P : S → Type 0} (txs : Transactions view) where
  -- A transaction keeps what its body ensures when the body succeeds.
  pub Keeps-transaction :
      (body : Act W (Unit {0}))
      → ((w : W) → P (view w) → (body w).0 ≡ ok tt → P (view (body w).1))
      → Keeps view P (txs.transaction body)
  Keeps-transaction body h = record {
    at = λ w start.
        let (b, same, cases) = txs.transaction_lem body w in
        elim cases [
          | inl (_, e, after) ↦ subst P (sym after) (h b (subst P (sym same) start) e)
          | inr (inl (_, _, _, after)) ↦ subst P (sym after) start
          | inr (inr (_, _, after)) ↦ subst P (sym after) start
        ];
  }
