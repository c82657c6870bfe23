-- ===== src/Simulation/Memory.antt =====
-- One table of the simulated state, with the laws of a table.
use go_video.Prelude.{
  ◌⊎◌, ◌<◌, All, Error, ℕ, ◌≡◌, ◌≢◌, inl, inr, refl, ◌∙◌, Bool, true, false, Bool-cases, List, [],
  ◌∷◌, ◌++◌, Result, ok, err, fault, duplicate_key, record_not_found, any, keep, count, take,
  length, arith, if◌then◌else◌,
}
use mathlib.Core.List.Perm
use mathlib.Core.List.{Memᴰ}
use go_video.Prelude.Int.{ℤ}
use go_video.Services.Sql.{
  Lens, Schema, Table, Performs, update_rows, delete_rows, Changed, Selects, sum_of,
}
use go_video.Entities.{State}
use go_video.Simulation.World.{World, state_of, call, call_holds, call_performs}
use go_video.Simulation.Tables.{
  next_key, next_key_positive, next_key_fresh, changed_rows, changed_rows-Changed, in_order,
  in_order-Ordered, find_first, find_first_cases,
}

module _ {Row : Type 0} (schema : Schema Row) (at : Lens State (List Row))
    (differs : Row → Row → Bool) where
  abbrev pub insert : Row → State → Result ℕ × State
  insert r s = if any (schema.clash r) (at.get s) then (err duplicate_key, s) else (
    ok (next_key schema.key (at.get s)),
    at.set (at.get s ++ schema.with_key (next_key schema.key (at.get s)) r ∷ []) s,
  )

  abbrev pub replace : (Row → Bool) → (Row → Row) → State → Result ℕ → Result ℕ × State
  replace q f s (ok n) = (ok n, at.set (update_rows q f (at.get s)) s)
  replace q f s (err e) = (err e, s)

  abbrev pub select_ordered :
      (Row → Bool) → (Row → Row → Bool) → ℕ → State → Result (List Row) × State
  select_ordered q le n s =
      if in_order le (keep q (at.get s))
      then (ok (take n (keep q (at.get s))), s)
      else (err (fault 2), s)

  module _ (sound : (r s : Row) → differs r s ≡ true → s ≢ r)
      (clash_key : (k : ℕ) (r s : Row)
        → schema.clash (schema.with_key k r) s ≡ schema.clash r s) where
    any-clash_key :
        (k : ℕ) (r : Row) (rs : List Row)
        → any (schema.clash (schema.with_key k r)) rs ≡ any (schema.clash r) rs
    any-clash_key k r [] = refl
    any-clash_key k r (s ∷ rs) = ground (arith, clash_key k r s, any-clash_key k r rs)

    insert_lem :
        (r : Row) (s : State)
        → ((k : ℕ) × ((insert r s).0 ≡ ok k)
            × (0 < k)
            × All (λ x. schema.key x ≢ k) (at.get s)
            × (any (schema.clash (schema.with_key k r)) (at.get s) ≡ false)
            × ((insert r s).1 ≡ at.set (at.get s ++ schema.with_key k r ∷ []) s))
          ⊎ (((insert r s).0 ≡ err duplicate_key)
              × (any (schema.clash r) (at.get s) ≡ true)
              × ((insert r s).1 ≡ s))
    insert_lem r s = elim (Bool-cases (any (schema.clash r) (at.get s))) [
      | inl e ↦ inr (rw e refl, e, rw e refl)
      | inr e ↦
          let k = next_key schema.key (at.get s) in
          inl (
            k,
            rw e refl,
            next_key_positive schema.key (at.get s),
            next_key_fresh schema.key (at.get s) k (omega arith),
            any-clash_key k r (at.get s) ∙ e,
            rw e refl,
          )
    ]

    replace_lem :
        (q : Row → Bool) (f : Row → Row) (s : State) (r : Result ℕ)
        → changed_rows q differs f (at.get s) ≡ r
        → ((n : ℕ) × ((replace q f s r).0 ≡ ok n)
            × (Changed q f (at.get s) n
                × ((replace q f s r).1 ≡ at.set (update_rows q f (at.get s)) s)))
          ⊎ ((e : Error) × ((replace q f s r).0 ≡ err e) × ((replace q f s r).1 ≡ s))
    replace_lem q f s (ok n) e =
        inl (n, refl, (changed_rows-Changed q differs f (at.get s) n sound e, refl))
    replace_lem q f s (err x) e = inr (x, refl, refl)

    select_lem :
        (q : Row → Bool) (le : Row → Row → Bool) (n : ℕ) (s : State)
        → ((rs : List Row) × ((select_ordered q le n s).0 ≡ ok rs)
            × (Selects q le n (at.get s) rs × ((select_ordered q le n s).1 ≡ s)))
          ⊎ ((e : Error) × ((select_ordered q le n s).0 ≡ err e)
              × ((select_ordered q le n s).1 ≡ s))
    select_lem q le n s = elim (Bool-cases (in_order le (keep q (at.get s)))) [
      | inl e ↦ inl (
          rw e (
            take n (keep q (at.get s)),
            refl,
            ((keep q (at.get s), Perm.refl _, in_order-Ordered le _ e, refl), refl),
          ))
      | inr e ↦ inr (rw e (fault 2, refl, refl))
    ]

    abbrev pub run_update : (Row → Bool) → (Row → Row) → State → Result ℕ × State
    run_update q f s = replace q f s (changed_rows q differs f (at.get s))

    abbrev pub run_delete : (Row → Bool) → State → Result ℕ × State
    run_delete q s = (ok (length (keep q (at.get s))), at.set (delete_rows q (at.get s)) s)

    pub create_holds :
        (r : Row) (w : World)
        → ((k : ℕ) × ((call (insert r) w).0 ≡ ok k)
            × (0 < k)
            × All (λ x. schema.key x ≢ k) (at.get (state_of w))
            × (any (schema.clash (schema.with_key k r)) (at.get (state_of w)) ≡ false)
            × (state_of (call (insert r) w).1
                ≡ at.set (at.get (state_of w) ++ schema.with_key k r ∷ []) (state_of w)))
          ⊎ (((call (insert r) w).0 ≡ err duplicate_key)
              × (any (schema.clash r) (at.get (state_of w)) ≡ true)
              × (state_of (call (insert r) w).1 ≡ state_of w))
          ⊎ ((e : Error) × ((call (insert r) w).0 ≡ err e)
              × (e ≢ duplicate_key)
              × (state_of (call (insert r) w).1 ≡ state_of w))
    create_holds r w =
        call_holds
          (λ o s.
            ((k : ℕ) × (o ≡ ok k)
              × (0 < k)
              × All (λ x. schema.key x ≢ k) (at.get (state_of w))
              × (any (schema.clash (schema.with_key k r)) (at.get (state_of w)) ≡ false)
              × (s ≡ at.set (at.get (state_of w) ++ schema.with_key k r ∷ []) (state_of w)))
            ⊎ ((o ≡ err duplicate_key)
                × (any (schema.clash r) (at.get (state_of w)) ≡ true)
                × (s ≡ state_of w))
            ⊎ ((e : Error) × (o ≡ err e) × (e ≢ duplicate_key) × (s ≡ state_of w)))
          (insert r) w (inr (inr (fault 0, refl, λ e. cc e, refl)))
          (elim (insert_lem r (state_of w)) [ inl x ↦ inl x | inr x ↦ inr (inl x) ])

    pub update_holds :
        (q : Row → Bool) (f : Row → Row) (w : World)
        → Performs state_of w (call (run_update q f) w) (λ n s.
          Changed q f (at.get (state_of w)) n
          × (s ≡ at.set (update_rows q f (at.get (state_of w))) (state_of w)))
    update_holds q f w = call_performs (run_update q f) _ w (replace_lem q f (state_of w) _ refl)

    pub delete_holds :
        (q : Row → Bool) (w : World)
        → Performs state_of w (call (run_delete q) w) (λ n s.
          (n ≡ length (keep q (at.get (state_of w))))
          × (s ≡ at.set (delete_rows q (at.get (state_of w))) (state_of w)))
    delete_holds q w = call_performs (run_delete q) _ w (inl (_, refl, (refl, refl)))

    abbrev pub run_first : (Row → Bool) → State → Result Row × State
    run_first q s = (find_first q (at.get s), s)

    pub first_holds :
        (q : Row → Bool) (w : World)
        → ((r : Row) × ((call (run_first q) w).0 ≡ ok r)
            × (q r ≡ true)
            × Memᴰ r (at.get (state_of w))
            × (state_of (call (run_first q) w).1 ≡ state_of w))
          ⊎ (((call (run_first q) w).0 ≡ err record_not_found)
              × (any q (at.get (state_of w)) ≡ false)
              × (state_of (call (run_first q) w).1 ≡ state_of w))
          ⊎ ((e : Error) × ((call (run_first q) w).0 ≡ err e)
              × (e ≢ record_not_found)
              × (state_of (call (run_first q) w).1 ≡ state_of w))
    first_holds q w =
        call_holds
          (λ o s.
            ((r : Row) × (o ≡ ok r)
              × (q r ≡ true)
              × Memᴰ r (at.get (state_of w))
              × (s ≡ state_of w))
            ⊎ ((o ≡ err record_not_found)
                × (any q (at.get (state_of w)) ≡ false)
                × (s ≡ state_of w))
            ⊎ ((e : Error) × (o ≡ err e) × (e ≢ record_not_found) × (s ≡ state_of w)))
          (run_first q) w (inr (inr (fault 0, refl, λ e. cc e, refl)))
          (elim (find_first_cases q (at.get (state_of w))) [
            | inl (r, found, hit, some_hit) ↦ inl (r, found, hit, some_hit, refl)
            | inr (found, none_hit) ↦ inr (inl (found, none_hit, refl))
          ])

    abbrev pub run_find : (Row → Bool) → State → Result (List Row) × State
    run_find q s = (ok (keep q (at.get s)), s)

    pub find_holds :
        (q : Row → Bool) (w : World)
        → Performs state_of w
            (call (run_find q) w)
            (λ rs s. (rs ≡ keep q (at.get (state_of w))) × (s ≡ state_of w))
    find_holds q w = call_performs (run_find q) _ w (inl (_, refl, (refl, refl)))

    abbrev pub run_count : (Row → Bool) → State → Result ℕ × State
    run_count q s = (ok (count q (at.get s)), s)

    pub count_holds :
        (q : Row → Bool) (w : World)
        → Performs state_of w
            (call (run_count q) w)
            (λ n s. (n ≡ count q (at.get (state_of w))) × (s ≡ state_of w))
    count_holds q w = call_performs (run_count q) _ w (inl (_, refl, (refl, refl)))

    pub select_holds :
        (q : Row → Bool) (le : Row → Row → Bool) (n : ℕ) (w : World)
        → Performs state_of w
            (call (select_ordered q le n) w)
            (λ rs s. Selects q le n (at.get (state_of w)) rs × (s ≡ state_of w))
    select_holds q le n w =
        call_performs (select_ordered q le n) _ w (select_lem q le n (state_of w))

    abbrev pub get_or_insert : Row → State → Result Row → Result Row × State
    get_or_insert r s (ok x) = (ok x, s)
    get_or_insert r s (err e) = (
      ok (schema.with_key (next_key schema.key (at.get s)) r),
      at.set (at.get s ++ schema.with_key (next_key schema.key (at.get s)) r ∷ []) s,
    )

    abbrev pub run_first_or_create : (Row → Bool) → Row → State → Result Row × State
    run_first_or_create q r s = get_or_insert r s (find_first q (at.get s))

    pub first_or_create_holds :
        (q : Row → Bool) (r : Row) (w : World)
        → Performs state_of w (call (run_first_or_create q r) w) (λ x s.
          ((q x ≡ true) × Memᴰ x (at.get (state_of w)) × (s ≡ state_of w))
          ⊎ ((any q (at.get (state_of w)) ≡ false)
              × ((k : ℕ) × (0 < k)
                  × All (λ y. schema.key y ≢ k) (at.get (state_of w))
                  × (x ≡ schema.with_key k r)
                  × (s ≡ at.set (at.get (state_of w) ++ x ∷ []) (state_of w)))))
    first_or_create_holds q r w =
        call_performs (run_first_or_create q r) _ w
          (elim (find_first_cases q (at.get (state_of w))) [
            | inl (x, found, hit, some_hit) ↦ rw found (inl (x, refl, inl (hit, some_hit, refl)))
            | inr (found, none_hit) ↦
                let k = next_key schema.key (at.get (state_of w)) in
                rw found (
                  inl (
                    schema.with_key k r,
                    refl,
                    inr (
                      none_hit,
                      (
                        k,
                        next_key_positive schema.key (at.get (state_of w)),
                        next_key_fresh schema.key (at.get (state_of w)) k (omega arith),
                        refl,
                        refl,
                      ),
                    ),
                  ))
          ])

    abbrev pub run_sum : (Row → Bool) → (Row → ℤ) → State → Result ℤ × State
    run_sum q f s = (ok (sum_of f (keep q (at.get s))), s)

    pub sum_holds :
        (q : Row → Bool) (f : Row → ℤ) (w : World)
        → Performs state_of w
            (call (run_sum q f) w)
            (λ n s. (n ≡ sum_of f (keep q (at.get (state_of w)))) × (s ≡ state_of w))
    sum_holds q f w = call_performs (run_sum q f) _ w (inl (_, refl, (refl, refl)))

    abbrev pub memory_table : Table state_of Row schema at
    memory_table = record {
      create = λ r. call (insert r);
      update = λ q f. call (run_update q f);
      delete = λ q. call (run_delete q);
      find = λ q. call (run_find q);
      first = λ q. call (run_first q);
      count_rows = λ q. call (run_count q);
      find_ordered = λ q le n. call (select_ordered q le n);
      first_or_create = λ q r. call (run_first_or_create q r);
      sum_rows = λ q f. call (run_sum q f);
      create_lem = create_holds;
      update_lem = update_holds;
      delete_lem = delete_holds;
      find_lem = find_holds;
      first_lem = first_holds;
      count_rows_lem = count_holds;
      find_ordered_lem = select_holds;
      first_or_create_lem = first_or_create_holds;
      sum_rows_lem = sum_holds;
    }
