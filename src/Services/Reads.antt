-- ===== src/Services/Reads.antt =====
-- Rules for the calls that read: the first row of a table, and entries of redis; and the writes of
-- string entries, for facts that do not look at those.
use go_video.Prelude.{
  ℕ, ◌≡◌, ◌∙◌, sym, subst, inl, inr, Bool, true, List, Result, ok, of_result, ◌>>=◌,
}
use go_video.Prelude.Text.{Text}
use mathlib.Core.List.{Memᴰ}
use go_video.Services.Sql.{Lens, Schema, Table}
use go_video.Services.Redis.{Key, Strings}
use go_video.Services.Keeps.{Keeps, Keeps-performs}
use go_video.Services.Ensures.{Ensures, ok_injective}
use go_video.Entities.{State}
use go_video.Entities.Schemas.{Cache}

module _ {W S Row : Type 0} {view : W → S} {schema : Schema Row} {at : Lens S (List Row)}
    (table : Table view Row schema at) where
  -- First answers a row of the table that was asked for, and changes nothing.
  pub ensures_first :
      {P : S → Type 0} (q : Row → Bool)
      → Ensures view P (table.first q) (λ r s. P s × (q r ≡ true) × Memᴰ r (at.get s))
  ensures_first {P} q = record {
    at = λ w x a done. elim (table.first_lem q w) [
      | inl (r, e, hit, there, same) ↦
          let Post : Row → S → Type 0 = λ b s. P s × (q b ≡ true) × Memᴰ b (at.get s) in
          rw same (subst (λ b. Post b (view w)) (ok_injective r a (sym e ∙ done)) (x, hit, there))
      | inr (inl (e, _, _)) ↦ absurd (cc (e, done))
      | inr (inr (_, e, _, _)) ↦ absurd (cc (e, done))
    ];
  }

module _ {W S : Type 0} {view : W → S} where
  -- A result that is at hand, where it is no error.
  pub ensures_of_result :
      {A : Type 0} {P : S → Type 0} (r : Result A)
      → Ensures view P (of_result r) (λ a s. P s × (r ≡ ok a))
  unfolding ◌>>=◌
  ensures_of_result r = record { at = λ w x a done. (x, done) }

-- A fact that looks at no string entry.
pub record IgnoresStrings (P : State → Type 0) : Type 0 where
  pub strings_set : (s : State) (x : Strings) → P s → P (record s { strings = x })

module _ {W : Type 0} {view : W → State} (cache : Cache view) where
  pub Keeps-get : {P : State → Type 0} (k : Key) → Keeps view P (cache.get k)
  Keeps-get {P} k = record { at = λ w h. subst P (sym (cache.get_lem k w).0) h }

  module _ {P : State → Type 0} (free : IgnoresStrings P) where
    pub Keeps-set : (k : Key) (v : Text) (ttl : ℕ) → Keeps view P (cache.set k v ttl)
    Keeps-set k v ttl =
        Keeps-performs _ _ (cache.set_lem k v ttl)
          (λ w a s h post. subst P (sym post) (free.strings_set _ _ h))

    pub Keeps-del : (k : Key) → Keeps view P (cache.del k)
    Keeps-del k =
        Keeps-performs _ _ (cache.del_lem k)
          (λ w a s h post. subst P (sym post) (free.strings_set _ _ h))
