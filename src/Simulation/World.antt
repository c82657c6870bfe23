-- ===== src/Simulation/World.antt =====
-- The world of the simulation, and what one call does to it.
use go_video.Prelude.{
  Bool, true, false, List, [], ◌∷◌, Result, ok, err, fault, Act, ◌≡◌, ◌⊎◌, inl, inr, Error, refl,
}
use go_video.Services.Sql.{Performs, answered, refused}
use go_video.Entities.{State}

-- The state, and for each coming call whether it fails.
abbrev pub World : Type 0
World = State × List Bool

abbrev pub state_of : World → State
state_of w = w.0

-- A call that reads and changes the state, unless it is the turn of a fault.
abbrev pub call : {A : Type 0} → (State → Result A × State) → Act World A
call f (s, []) = ((f s).0, ((f s).1, []))
call f (s, true ∷ faults) = (err (fault 0), (s, faults))
call f (s, false ∷ faults) = ((f s).0, ((f s).1, faults))

-- What holds of the fault and of the call's own outcome holds of the call.
pub call_holds :
    {A : Type 0} (P : Result A → State → Type 0) (f : State → Result A × State) (w : World)
    → P (err (fault 0)) (state_of w)
    → P (f (state_of w)).0 (f (state_of w)).1
    → P (call f w).0 (state_of (call f w).1)
call_holds P f (s, []) bad good = good
call_holds P f (s, true ∷ faults) bad good = bad
call_holds P f (s, false ∷ faults) bad good = good

-- How a call performs, by what it does when it is not its turn to fail.
pub call_performs :
    {A : Type 0} (f : State → Result A × State) (Post : A → State → Type 0) (w : World)
    → ((a : A) × ((f (state_of w)).0 ≡ ok a) × Post a (f (state_of w)).1)
      ⊎ ((e : Error) × ((f (state_of w)).0 ≡ err e) × ((f (state_of w)).1 ≡ state_of w))
    → Performs state_of w (call f w) Post
call_performs f Post (s, []) (inl (a, e, x)) = answered a e x
call_performs f Post (s, []) (inr (e, x, same)) = refused e x same
call_performs f Post (s, true ∷ faults) h = refused (fault 0) refl refl
call_performs f Post (s, false ∷ faults) (inl (a, e, x)) = answered a e x
call_performs f Post (s, false ∷ faults) (inr (e, x, same)) = refused e x same
