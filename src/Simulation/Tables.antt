-- ===== src/Simulation/Tables.antt =====
-- Tables in memory. An UPDATE that might leave a selected row as it was, and a SELECT whose rows do
-- not stand in the order that is asked for, count as faults.
use go_video.Prelude.{
  ℕ, suc, ◌<◌, ◌≤◌, ◌≡◌, ◌≢◌, ◌⊎◌, inl, inr, refl, Bool, true, false, ◌&&◌, not, Bool-cases, List,
  [], ◌∷◌, Result, ok, err, fault, record_not_found, any, All, arith, ltb, if◌then◌else◌,
}
use mathlib.Core.List.{Memᴰ}
use go_video.Services.Sql.{Changed, Ordered}

abbrev add_one : Result ℕ → Result ℕ
add_one (ok n) = ok (suc n)
add_one (err e) = err e

add_one_ok : (r : Result ℕ) (n : ℕ) → add_one r ≡ ok n → (m : ℕ) × (n ≡ suc m) × (r ≡ ok m)
add_one_ok (ok m) n h = (m, cc, refl)
add_one_ok (err e) n h = absurd (cc h)

module _ {Row : Type 0} where
  abbrev pub next_key : (Row → ℕ) → List Row → ℕ
  next_key key [] = 1
  next_key key (r ∷ rs) = if ltb (key r) (next_key key rs) then next_key key rs else suc (key r)

  pub next_key_positive : (key : Row → ℕ) (rs : List Row) → 0 < next_key key rs
  next_key_positive key [] = omega arith
  next_key_positive key (r ∷ rs) = ground (arith, next_key_positive key rs)

  pub next_key_fresh :
      (key : Row → ℕ) (rs : List Row) (n : ℕ) → next_key key rs ≤ n → All (λ x. key x ≢ n) rs
  next_key_fresh key [] n h = tt
  next_key_fresh key (r ∷ rs) n h = (λ e. ground arith, next_key_fresh key rs n (ground arith))

  -- The number of rows that an UPDATE changes, where it is known to change each row it selects.
  abbrev pub changed_rows : (Row → Bool) → (Row → Row → Bool) → (Row → Row) → List Row → Result ℕ
  changed_rows q differs f [] = ok 0
  changed_rows q differs f (r ∷ rs) =
      let rest = changed_rows q differs f rs in
      if q r then (if differs r (f r) then add_one rest else err (fault 1)) else rest

  pub changed_rows-Changed :
      (q : Row → Bool) (differs : Row → Row → Bool) (f : Row → Row) (rs : List Row) (n : ℕ)
      → ((r s : Row) → differs r s ≡ true → s ≢ r)
      → changed_rows q differs f rs ≡ ok n
      → Changed q f rs n
  changed_rows-Changed q differs f [] n sound h = ground arith
  changed_rows-Changed q differs f (r ∷ rs) n sound h = elim (Bool-cases (q r)) [
    | inl e ↦ elim (Bool-cases (differs r (f r))) [
      | inl d ↦
          let (m, number, rest) = add_one_ok (changed_rows q differs f rs) n (rw (e, d) at h) in
          rw e
            (inr (sound r (f r) d, (m, number, changed_rows-Changed q differs f rs m sound rest)))
      | inr d ↦ absurd (ground arith)
    ]
    | inr e ↦ rw e (changed_rows-Changed q differs f rs n sound (ground arith))
  ]

  later_rows :
      (le : Row → Row → Bool) (r : Row) (rs : List Row)
      → any (λ s. not (le r s)) rs ≡ false
      → All (λ s. le r s ≡ true) rs
  later_rows le r [] h = tt
  later_rows le r (s ∷ rs) h = (ground arith, later_rows le r rs (ground arith))

  abbrev pub in_order : (Row → Row → Bool) → List Row → Bool
  in_order le [] = true
  in_order le (r ∷ rs) = not (any (λ s. not (le r s)) rs) && in_order le rs

  pub in_order-Ordered :
      (le : Row → Row → Bool) (rs : List Row) → in_order le rs ≡ true → Ordered le rs
  in_order-Ordered le [] h = tt
  in_order-Ordered le (r ∷ rs) h =
      (later_rows le r rs (ground arith), in_order-Ordered le rs (ground arith))

  abbrev pub find_first : (Row → Bool) → List Row → Result Row
  find_first q [] = err record_not_found
  find_first q (r ∷ rs) = if q r then ok r else find_first q rs

  pub find_first_cases :
      (q : Row → Bool) (rs : List Row)
      → ((r : Row) × (find_first q rs ≡ ok r) × (q r ≡ true) × Memᴰ r rs)
        ⊎ ((find_first q rs ≡ err record_not_found) × (any q rs ≡ false))
  find_first_cases q [] = inr (refl, refl)
  find_first_cases q (r ∷ rs) = elim (Bool-cases (q r)) [
    | inl e ↦ inl (r, ground arith, e, Memᴰ.head refl)
    | inr e ↦ elim (find_first_cases q rs) [
      | inl (s, found, hit, some_hit) ↦ inl (s, ground arith, hit, Memᴰ.tail some_hit)
      | inr (found, none_hit) ↦ inr (ground arith, ground arith)
    ]
  ]
