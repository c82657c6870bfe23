-- ===== src/Prelude/Decimal.antt =====
-- strconv.FormatUint and strconv.ParseUint in base 10, for 64 bits.
use Prim.Native.Nat.{ℕ, zero, suc, ◌+◌, ◌-◌, ◌*◌, ◌/◌, ◌%◌, ◌^◌}
use mathlib.Core.Path.{◌≡◌, refl}
use mathlib.Core.Bool.{◌&&◌}
use mathlib.Core.Option.{Option, none, some}
use mathlib.Core.List.{[], ◌∷◌}
use go_video.Prelude.Tests.{ltb, leb, if◌then◌else◌}
use go_video.Prelude.Text.{Text, lit}

-- The digits of a number before those that are there; twenty are enough for 64 bits.
digits : ℕ → ℕ → Text → Text
digits zero n acc = acc
digits (suc fuel) n acc =
    let rest = digits fuel (n / 10) ((48 + n % 10) ∷ acc) in
    if ltb n 10 then (48 + n) ∷ acc else rest

unfoldable pub format_uint : ℕ → Text
unfolding digits
format_uint n = digits 20 n []

-- A text that is not all digits, and a number that does not fit, are errors.
parse_digits : ℕ → Text → Option ℕ
parse_digits acc [] = some acc
parse_digits acc (c ∷ cs) =
    let rest = parse_digits (acc * 10 + (c - 48)) cs in
    if leb 48 c && leb c 57 && ltb (acc * 10 + (c - 48)) (2 ^ 64) then rest else none

unfoldable pub parse_uint : Text → Option ℕ
unfolding parse_digits
parse_uint [] = none
parse_uint (c ∷ cs) = parse_digits 0 (c ∷ cs)

parse_format : parse_uint (format_uint 18446744073709551615) ≡ some 18446744073709551615
unfolding parse_uint format_uint
parse_format = refl

parse_too_large : parse_uint (lit "18446744073709551616") ≡ none
unfolding parse_uint
parse_too_large = refl
