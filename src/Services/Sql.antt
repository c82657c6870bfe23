-- ===== src/Services/Sql.antt =====
-- MySQL through gorm. `W` is the hidden state of the outside world and `view` shows the part of it
-- that the program reads back: the rows of the tables, the publications that the message client took.
use go_video.Prelude.{
  ap, sym, subst, ℕ, suc, refl, Bool-cases, arith, ◌<◌, ◌≡◌, ◌≢◌, ◌⊎◌, inl, inr, Bool, true, false,
  List, [], ◌∷◌, ◌++◌, Error, Result, ok, err, duplicate_key, record_not_found, count, fault, Act,
  keep, any, take, All, length, if◌then◌else◌,
}
use mathlib.Core.List.{Perm, Memᴰ}
use go_video.Prelude.Int.{ℤ, pos, ◌+ℤ◌}

-- One part of a larger state.
pub record Lens (S A : Type 0) : Type 0 where
  pub get : S → A
  pub set : A → S → S

-- What the gorm tags of an entity declare: the primary key, and when two rows share a unique index.
pub record Schema (Row : Type 0) : Type 0 where
  pub key : Row → ℕ
  pub with_key : ℕ → Row → Row
  pub clash : Row → Row → Bool

-- A call either answers `a` and leaves the view that `Post a` describes, or fails and changes
-- nothing that can be seen.
pub data Performs {W S A : Type 0} (view : W → S) (w : W) (out : Result A × W)
    (Post : A → S → Type 0) : Type 0 where
  answered : (a : A) → out.0 ≡ ok a → Post a (view out.1) → Performs view w out Post
  refused : (e : Error) → out.0 ≡ err e → view out.1 ≡ view w → Performs view w out Post

pub performs_cases :
    {W S A : Type 0} {view : W → S} {w : W} {out : Result A × W} {Post : A → S → Type 0}
    → Performs view w out Post
    → ((a : A) × (out.0 ≡ ok a) × Post a (view out.1))
      ⊎ ((e : Error) × (out.0 ≡ err e) × (view out.1 ≡ view w))
performs_cases (answered a e x) = inl (a, e, x)
performs_cases (refused e x s) = inr (e, x, s)

-- UPDATE on the rows that `p` selects.
abbrev pub update_rows : {Row : Type 0} → (Row → Bool) → (Row → Row) → List Row → List Row
update_rows p f [] = []
update_rows p f (r ∷ rs) = (if p r then f r else r) ∷ update_rows p f rs

-- DELETE of the rows that `p` selects.
abbrev pub delete_rows : {Row : Type 0} → (Row → Bool) → List Row → List Row
delete_rows p [] = []
delete_rows p (r ∷ rs) = if p r then delete_rows p rs else r ∷ delete_rows p rs

-- RowsAffected of an UPDATE: MySQL counts the rows that it changed, not those that it matched.
abbrev pub Changed : {Row : Type 0} → (Row → Bool) → (Row → Row) → List Row → ℕ → Type 0
Changed p f [] n = n ≡ 0
Changed p f (r ∷ rs) n =
    if p r
    then ((f r ≡ r) × Changed p f rs n) ⊎ ((f r ≢ r) × ((m : ℕ) × (n ≡ suc m) × Changed p f rs m))
    else Changed p f rs n

-- Each element comes before the next by `le`.
abbrev pub Ordered : {Row : Type 0} → (Row → Row → Bool) → List Row → Type 0
Ordered le [] = Unit
Ordered le (r ∷ rs) = All (λ s. le r s ≡ true) rs × Ordered le rs

-- SELECT … ORDER BY … LIMIT n: the first n of the selected rows in some order that agrees with
-- `le`; rows that `le` does not tell apart come in any order.
abbrev pub Selects :
    {Row : Type 0} → (Row → Bool) → (Row → Row → Bool) → ℕ → List Row → List Row → Type 0
Selects {Row} p le n rows out =
    (all : List Row) × Perm all (keep p rows) × Ordered le all × (out ≡ take n all)

abbrev pub sum_of : {Row : Type 0} → (Row → ℤ) → List Row → ℤ
sum_of f [] = pos 0
sum_of f (r ∷ rs) = f r +ℤ sum_of f rs

module _ {W S : Type 0} (view : W → S) where
  -- One table. `create` answers the key that AUTO_INCREMENT gave to the new row.
  pub record Table (Row : Type 0) (schema : Schema Row) (at : Lens S (List Row)) : Type 0 where
    pub create : Row → Act W ℕ
    pub update : (Row → Bool) → (Row → Row) → Act W ℕ
    pub delete : (Row → Bool) → Act W ℕ
    pub find : (Row → Bool) → Act W (List Row)
    -- First: one of the rows, or ErrRecordNotFound.
    pub first : (Row → Bool) → Act W Row
    pub count_rows : (Row → Bool) → Act W ℕ
    pub find_ordered : (Row → Bool) → (Row → Row → Bool) → ℕ → Act W (List Row)
    -- FirstOrCreate: one of the rows that `p` selects, or else the given row, created.
    pub first_or_create : (Row → Bool) → Row → Act W Row
    -- SELECT COALESCE(SUM(…), 0)
    pub sum_rows : (Row → Bool) → (Row → ℤ) → Act W ℤ
    -- A row goes in only under a fresh key and where no unique index refuses it; error 1062 says
    -- that one did.
    pub create_lem :
        (r : Row) (w : W)
        → ((k : ℕ) × ((create r w).0 ≡ ok k)
            × (0 < k)
            × All (λ x. schema.key x ≢ k) (at.get (view w))
            × (any (schema.clash (schema.with_key k r)) (at.get (view w)) ≡ false)
            × (view (create r w).1 ≡ at.set (at.get (view w) ++ schema.with_key k r ∷ []) (view w)))
          ⊎ (((create r w).0 ≡ err duplicate_key)
              × (any (schema.clash r) (at.get (view w)) ≡ true)
              × (view (create r w).1 ≡ view w))
          ⊎ ((e : Error) × ((create r w).0 ≡ err e)
              × (e ≢ duplicate_key)
              × (view (create r w).1 ≡ view w))
    pub update_lem :
        (p : Row → Bool) (f : Row → Row) (w : W)
        → Performs view w (update p f w) (λ n s.
          Changed p f (at.get (view w)) n
          × (s ≡ at.set (update_rows p f (at.get (view w))) (view w)))
    -- RowsAffected of a DELETE is the number of rows that it removed.
    pub delete_lem :
        (p : Row → Bool) (w : W)
        → Performs view w (delete p w) (λ n s.
          (n ≡ length (keep p (at.get (view w))))
          × (s ≡ at.set (delete_rows p (at.get (view w))) (view w)))
    pub find_lem :
        (p : Row → Bool) (w : W)
        → Performs view w (find p w) (λ rs s. (rs ≡ keep p (at.get (view w))) × (s ≡ view w))
    pub first_lem :
        (p : Row → Bool) (w : W)
        → ((r : Row) × ((first p w).0 ≡ ok r)
            × (p r ≡ true)
            × Memᴰ r (at.get (view w))
            × (view (first p w).1 ≡ view w))
          ⊎ (((first p w).0 ≡ err record_not_found)
              × (any p (at.get (view w)) ≡ false)
              × (view (first p w).1 ≡ view w))
          ⊎ ((e : Error) × ((first p w).0 ≡ err e)
              × (e ≢ record_not_found)
              × (view (first p w).1 ≡ view w))
    pub count_rows_lem :
        (p : Row → Bool) (w : W)
        → Performs view w (count_rows p w) (λ n s. (n ≡ count p (at.get (view w))) × (s ≡ view w))
    pub find_ordered_lem :
        (p : Row → Bool) (le : Row → Row → Bool) (n : ℕ) (w : W)
        → Performs view w
            (find_ordered p le n w)
            (λ rs s. Selects p le n (at.get (view w)) rs × (s ≡ view w))
    pub first_or_create_lem :
        (p : Row → Bool) (r : Row) (w : W)
        → Performs view w (first_or_create p r w) (λ x s.
          ((p x ≡ true) × Memᴰ x (at.get (view w)) × (s ≡ view w))
          ⊎ ((any p (at.get (view w)) ≡ false)
              × ((k : ℕ) × (0 < k)
                  × All (λ y. schema.key y ≢ k) (at.get (view w))
                  × (x ≡ schema.with_key k r)
                  × (s ≡ at.set (at.get (view w) ++ x ∷ []) (view w)))))
    pub sum_rows_lem :
        (p : Row → Bool) (f : Row → ℤ) (w : W)
        → Performs view w
            (sum_rows p f w)
            (λ n s. (n ≡ sum_of f (keep p (at.get (view w)))) × (s ≡ view w))

  -- BEGIN … COMMIT: either all of the body's writes are kept, and the body returned, or none is.
  pub record Transactions : Type 0 where
    pub transaction : Act W (Unit {0}) → Act W (Unit {0})
    pub transaction_lem :
        (body : Act W (Unit {0})) (w : W)
        → (b : W) × (view b ≡ view w)
          × ((((transaction body w).0 ≡ ok tt)
                × ((body b).0 ≡ ok tt)
                × (view (transaction body w).1 ≡ view (body b).1))
              ⊎ ((e : Error) × ((transaction body w).0 ≡ err e)
                  × ((body b).0 ≡ err e)
                  × (view (transaction body w).1 ≡ view w))
              ⊎ ((n : ℕ) × ((transaction body w).0 ≡ err (fault n))
                  × (view (transaction body w).1 ≡ view w)))

-- What holds of a row of the table holds of some row.
pub any_of_Mem :
    {Row : Type 0} (q : Row → Bool) {r : Row} {rs : List Row}
    → Memᴰ r rs
    → q r ≡ true
    → any q rs ≡ true
any_of_Mem q (Memᴰ.head e) h = ground (arith, ap q e)
any_of_Mem q (Memᴰ.tail m) h = ground (arith, any_of_Mem q m h)

module _ {Row : Type 0} (p : Row → Bool) where
  -- An UPDATE keeps what holds of every row, if it keeps it of each row that it changes.
  pub All-update_rows :
      (Q : Row → Type 0) (f : Row → Row) (rs : List Row)
      → ((r : Row) → Q r → p r ≡ true → Q (f r))
      → All Q rs
      → All Q (update_rows p f rs)
  All-update_rows Q f [] step h = tt
  All-update_rows Q f (r ∷ rs) step h = elim (Bool-cases (p r)) [
    | inl e ↦ rw e (step r h.0 e, All-update_rows Q f rs step h.1)
    | inr e ↦ rw e (h.0, All-update_rows Q f rs step h.1)
  ]

  -- An UPDATE whose change takes rows out of its own selection leaves none in it.
  pub none-update_rows :
      (f : Row → Row) (rs : List Row)
      → ((r : Row) → p (f r) ≡ false)
      → any p (update_rows p f rs) ≡ false
  none-update_rows f [] h = refl
  none-update_rows f (r ∷ rs) h = ground (arith, h r, none-update_rows f rs h)

  pub update_rows_none :
      (f : Row → Row) (rs : List Row) → any p rs ≡ false → update_rows p f rs ≡ rs
  update_rows_none f [] h = refl
  update_rows_none f (r ∷ rs) h = ground (arith, update_rows_none f rs)

  pub Changed-zero :
      (f : Row → Row) (rs : List Row) (n : ℕ) → any p rs ≡ false → Changed p f rs n → n ≡ 0
  Changed-zero f [] n h c = c
  Changed-zero f (r ∷ rs) n h c = elim (Bool-cases (p r)) [
    | inl e ↦ ground arith
    | inr e ↦ Changed-zero f rs n (ground arith) (rw e at c)
  ]

  -- A DELETE leaves none of the rows that it selects.
  pub none-delete_rows : (rs : List Row) → any p (delete_rows p rs) ≡ false
  none-delete_rows [] = refl
  none-delete_rows (r ∷ rs) = ground (arith, none-delete_rows rs)

  pub delete_rows_none : (rs : List Row) → length (keep p rs) ≡ 0 → delete_rows p rs ≡ rs
  delete_rows_none [] h = refl
  delete_rows_none (r ∷ rs) h = ground (arith, delete_rows_none rs)

  pub All-delete_rows : (Q : Row → Type 0) (rs : List Row) → All Q rs → All Q (delete_rows p rs)
  All-delete_rows Q [] h = tt
  All-delete_rows Q (r ∷ rs) h = elim (Bool-cases (p r)) [
    | inl e ↦ rw e (All-delete_rows Q rs h.1)
    | inr e ↦ rw e (h.0, All-delete_rows Q rs h.1)
  ]

-- An UPDATE that selects a row leaves a row that it makes.
pub any-update_rows :
    {Row : Type 0} (p q : Row → Bool) (f : Row → Row) {r : Row} {rs : List Row}
    → Memᴰ r rs
    → p r ≡ true
    → q (f r) ≡ true
    → any q (update_rows p f rs) ≡ true
any-update_rows p q f (Memᴰ.head e) h k = ground (arith, ap p e, ap (λ x. q (f x)) e)
any-update_rows p q f (Memᴰ.tail m) h k = ground (arith, any-update_rows p q f m h k)

-- What an UPDATE leaves true of each row that it makes holds of every row that it selects after.
pub selected-update_rows :
    {Row : Type 0} (p q : Row → Bool) (f : Row → Row) (rs : List Row)
    → ((r : Row) → p (f r) ≡ p r)
    → ((r : Row) → q (f r) ≡ true)
    → All (λ r. p r ≡ true → q r ≡ true) (update_rows p f rs)
selected-update_rows p q f [] same made = tt
selected-update_rows p q f (r ∷ rs) same made = elim (Bool-cases (p r)) [
  | inl e ↦ rw e ((λ _. made r), selected-update_rows p q f rs same made)
  | inr e ↦ rw e ((λ h. absurd (cc h)), selected-update_rows p q f rs same made)
]

-- What holds of every row holds of one of them.
pub All_at :
    {Row : Type 0} (Q : Row → Type 0) {r : Row} {rs : List Row} → All Q rs → Memᴰ r rs → Q r
All_at Q h (Memᴰ.head e) = subst Q (sym e) h.0
All_at Q h (Memᴰ.tail m) = All_at Q h.1 m

-- A row that passes a test, where one does.
pub Mem_of_any :
    {Row : Type 0} (q : Row → Bool) (rs : List Row)
    → any q rs ≡ true
    → (r : Row) × Memᴰ r rs × (q r ≡ true)
Mem_of_any q [] h = absurd (cc h)
Mem_of_any q (r ∷ rs) h = elim (Bool-cases (q r)) [
  | inl e ↦ (r, Memᴰ.head refl, e)
  | inr e ↦ let (x, there, hit) = Mem_of_any q rs (rw e at h) in (x, Memᴰ.tail there, hit)
]

pub any_mono :
    {A : Type 0} (p q : A → Bool) (xs : List A)
    → ((x : A) → p x ≡ true → q x ≡ true)
    → any p xs ≡ true
    → any q xs ≡ true
any_mono p q [] f h = h
any_mono p q (x ∷ xs) f h = elim (Bool-cases (p x)) [
  | inl e ↦ rw (f x e) refl
  | inr e ↦ ground (arith, any_mono p q xs f (rw e at h))
]
