-- ===== src/Simulation/Cache.antt =====
-- Redis in memory. A ZADD whose result does not stand in the order of the scores when the new member
-- is put first counts as a fault.
use go_video.Prelude.{
  ℕ, ◌≡◌, ◌⊎◌, inl, inr, refl, Error, Bool, Bool-cases, Option, none, some, [], ◌∷◌, ◌++◌, Result,
  ok, err, fault, redis_nil, is_none, if◌then◌else◌,
}
use mathlib.Core.List.Perm
use go_video.Prelude.Int.{ℤ}
use go_video.Prelude.Text.{Text}
use go_video.Services.Sql.{Performs, Ordered}
use go_video.Services.Redis.{
  lease_of, put_lease, Key, Strings, Timeline, put_string, incr_member, add_member, by_score,
  remove_ranks,
}
use go_video.Services.Platform.{Platform}
use go_video.Entities.{State, PushMessage}
use go_video.Entities.Schemas.{Cache}
use go_video.Simulation.World.{World, state_of, call, call_holds, call_performs}
use go_video.Simulation.Tables.{in_order, in_order-Ordered}
use go_video.Simulation.Services.{memory_platform}
use mathlib.Core.List.{Perm}

abbrev entry : Option Text → Result Text
entry (some v) = ok v
entry none = err redis_nil

abbrev run_get : Key → State → Result Text × State
run_get k s = (entry (s.strings k), s)

entry_cases :
    (o : Option Text)
    → ((v : Text) × (entry o ≡ ok v) × (o ≡ some v)) ⊎ ((entry o ≡ err redis_nil) × (o ≡ none))
entry_cases (some v) = inl (v, refl, refl)
entry_cases none = inr (refl, refl)

pub get_holds :
    (k : Key) (w : World)
    → (state_of (call (run_get k) w).1 ≡ state_of w)
      × (((v : Text) × ((call (run_get k) w).0 ≡ ok v) × ((state_of w).strings k ≡ some v))
          ⊎ (((call (run_get k) w).0 ≡ err redis_nil) × ((state_of w).strings k ≡ none))
          ⊎ ((n : ℕ) × ((call (run_get k) w).0 ≡ err (fault n))))
get_holds k w =
    call_holds
      (λ o s.
        (s ≡ state_of w)
        × (((v : Text) × (o ≡ ok v) × ((state_of w).strings k ≡ some v))
            ⊎ ((o ≡ err redis_nil) × ((state_of w).strings k ≡ none))
            ⊎ ((n : ℕ) × (o ≡ err (fault n)))))
      (run_get k) w (refl, inr (inr (0, refl)))
      (refl, elim (entry_cases ((state_of w).strings k)) [ inl x ↦ inl x | inr x ↦ inr (inl x) ])

abbrev run_change : (State → State) → State → Result (Unit {0}) × State
run_change f s = (ok tt, f s)

pub change_holds :
    (f : State → State) (w : World)
    → Performs state_of w (call (run_change f) w) (λ _ s. s ≡ f (state_of w))
change_holds f w = call_performs (run_change f) _ w (inl (tt, refl, refl))

abbrev run_set_nx : Key → Text → ℕ → State → Result Bool × State
run_set_nx k v ttl s = (
  ok (is_none (s.strings k)),
  if is_none (s.strings k)
      then record s {
        strings = put_string k (some v) s.strings;
        leases = put_lease k (lease_of ttl) s.leases;
      }
      else s,
)

abbrev run_eval : (Strings → ℕ × Strings) → State → Result ℕ × State
run_eval script s = (ok (script s.strings).0, record s { strings = (script s.strings).1 })

abbrev run_zadd : ℕ × ℕ → State → Result (Unit {0}) × State
run_zadd e s =
    if in_order by_score (add_member e s.timeline)
    then (ok tt, record s { timeline = add_member e s.timeline })
    else (err (fault 3), s)

pub zadd_cases :
    (e : ℕ × ℕ) (s : State)
    → ((a : Unit {0}) × ((run_zadd e s).0 ≡ ok a)
        × ((new : Timeline) × Perm new (add_member e s.timeline)
            × Ordered by_score new
            × ((run_zadd e s).1 ≡ record s { timeline = new })))
      ⊎ ((x : Error) × ((run_zadd e s).0 ≡ err x) × ((run_zadd e s).1 ≡ s))
zadd_cases e s = elim (Bool-cases (in_order by_score (add_member e s.timeline))) [
  | inl yes_order ↦ rw yes_order (
      inl (
        tt,
        refl,
        (
          add_member e s.timeline,
          Perm.refl _,
          in_order-Ordered by_score (add_member e s.timeline) yes_order,
          refl,
        ),
      ))
  | inr no_order ↦ rw no_order (inr (fault 3, refl, refl))
]

abbrev pub with_string : Key → Option Text → State → State
with_string k v s = record s { strings = put_string k v s.strings }

abbrev pub with_incr : Key → ℕ → ℤ → State → State
with_incr k m d s = record s { sorted_sets = incr_member k m d s.sorted_sets }

abbrev pub with_ranks : ℕ → ℤ → State → State
with_ranks start stop s = record s { timeline = remove_ranks start stop s.timeline }

abbrev pub with_push : Text → PushMessage → State → State
with_push channel m s = record s { pushes = s.pushes ++ (channel, m) ∷ [] }

abbrev pub memory_cache : Cache state_of
memory_cache = record {
  get = λ k. call (run_get k);
  set = λ k v ttl. call (run_change (with_string k (some v)));
  del = λ k. call (run_change (with_string k none));
  zincrby = λ k m d. call (run_change (with_incr k m d));
  expire = λ k ttl. call (run_change (λ s. s));
  get_lem = get_holds;
  set_lem = λ k v ttl w. change_holds (with_string k (some v)) w;
  del_lem = λ k w. change_holds (with_string k none) w;
  zincrby_lem = λ k m d w. change_holds (with_incr k m d) w;
  expire_lem = λ k ttl w. change_holds (λ s. s) w;
  set_nx = λ k v ttl. call (run_set_nx k v ttl);
  set_nx_lem = λ k v ttl w. call_performs (run_set_nx k v ttl) _ w (inl (_, refl, (refl, refl)));
  eval = λ script. call (run_eval script);
  eval_lem = λ script w. call_performs (run_eval script) _ w (inl (_, refl, (refl, refl)));
  zadd = λ e. call (run_zadd e);
  zadd_lem = λ e w. call_performs (run_zadd e) _ w (zadd_cases e (state_of w));
  zremrangebyrank = λ start stop. call (run_change (with_ranks start stop));
  zremrangebyrank_lem = λ start stop w. change_holds (with_ranks start stop) w;
  publish = λ channel m. call (run_change (with_push channel m));
  publish_lem = λ channel m w. change_holds (with_push channel m) w;
}

-- The platform in memory, with redis.
abbrev pub cached_platform : Platform World
cached_platform = record memory_platform { redis = some memory_cache }
