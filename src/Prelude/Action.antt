-- ===== src/Prelude/Action.antt =====
-- Errors as values, and actions: functions from the state of the outside world to a result and the
-- next state. What a call wrote before it failed stays written, so a failure returns a state too.
use Prim.Native.Nat.{ℕ}
use Prim.Native.String.{String}
use mathlib.Core.Path.{◌≡◌, refl}
use mathlib.Core.Logic.{◌⊎◌, inl, inr}
use mathlib.Core.Bool.{Bool, true, false}

-- `message s` is `errors.New(s)`; the other constructors are the errors that the program tells
-- apart by `errors.Is` or by their number (1062); `fault` is any other error of a service.
pub data Error : Type 0 where
  message : String → Error
  duplicate_key record_not_found unauthorized validation redis_nil : Error
  fault : ℕ → Error

pub data Result {ℓ} (A : Type ℓ) : Type ℓ where
  ok : A → Result A
  err : Error → Result A

abbrev pub is_ok {ℓ} : {A : Type ℓ} → Result A → Bool
is_ok (ok a) = true
is_ok (err e) = false

-- The answer, or a value in its place.
abbrev pub or_else {ℓ} : {A : Type ℓ} → A → Result A → A
or_else a (ok b) = b
or_else a (err e) = a

abbrev pub is_dup_key : Error → Bool
is_dup_key duplicate_key = true
is_dup_key _ = false

pub Result-cases {ℓ} :
    {A : Type ℓ} (r : Result A) → ((a : A) × (r ≡ ok a)) ⊎ ((e : Error) × (r ≡ err e))
Result-cases (ok a) = inl (a, refl)
Result-cases (err e) = inr (e, refl)

abbrev pub Act : Type 0 → Type 0 → Type 0
Act W A = W → Result A × W

pub pure : {W A : Type 0} → A → Act W A
pure a w = (ok a, w)

pub raise : {W A : Type 0} → Error → Act W A
raise e w = (err e, w)

-- A result that needs no call.
pub of_result : {W A : Type 0} → Result A → Act W A
of_result r w = (r, w)

-- The result as a value, for calls whose error the program inspects or ignores.
pub attempt : {W A : Type 0} → Act W A → Act W (Result A)
attempt m w = let (r, w') = m w in (ok r, w')

abbrev pub continue : {W A B : Type 0} → Result A → (A → Act W B) → Act W B
continue (ok a) f w = f a w
continue (err e) f w = (err e, w)

infixl 5 ◌>>=◌ ◌>>◌
-- Opening this opens `pure`, `raise`, `of_result` and `attempt` too.
unfoldable pub ◌>>=◌ : {W A B : Type 0} → Act W A → (A → Act W B) → Act W B
unfolding pure raise of_result attempt
◌>>=◌ m f w = let (r, w') = m w in continue r f w'

abbrev pub ◌>>◌ : {W A B : Type 0} → Act W A → Act W B → Act W B
m >> k = m >>= λ _. k
