-- ===== src/Prelude/Text.antt =====
-- Go strings as lists of bytes: literals, comparison and `strings.TrimSpace`.
use Prim.Native.Nat.{ℕ}
use Prim.Native.Char.{code}
use Prim.Native.String.{String}
use mathlib.Core.Path.{◌≡◌, refl}
use mathlib.Core.Logic.{◌↔◌}
use mathlib.Core.Bool.{Bool, true, false, ◌&&◌, ◌||◌}
use mathlib.Core.List.{List, [], ◌∷◌, reverse}
use native.Mathlib.Omega.{arith}
use go_video.Prelude.Tests.{leb, ◌==◌, if◌then◌else◌}

abbrev pub Text : Type 0
Text = List ℕ

-- The bytes of an ASCII literal.
abbrev pub lit : String → Text
lit String.[] = []
lit (String.◌∷◌ c s) = code c ∷ lit s

unfoldable pub text_eq : Text → Text → Bool
text_eq [] [] = true
text_eq (x ∷ xs) (y ∷ ys) = x == y && text_eq xs ys
text_eq _ _ = false

pub text_eq_iff : (s t : Text) → (text_eq s t ≡ true) ↔ (s ≡ t)
unfolding text_eq
text_eq_iff [] [] = ground arith
text_eq_iff [] (y ∷ ys) = ground arith
text_eq_iff (x ∷ xs) [] = ground arith
text_eq_iff (x ∷ xs) (y ∷ ys) = ground (arith, text_eq_iff xs ys)

pub text_eq_self : (s : Text) → text_eq s s ≡ true
text_eq_self s = (text_eq_iff s s).1 refl

abbrev pub is_empty : Text → Bool
is_empty [] = true
is_empty (x ∷ xs) = false

-- One-byte white space: \t \n \v \f \r and the space.
abbrev space1 : ℕ → Bool
space1 a = (leb 9 a && leb a 13) || a == 32

-- U+0085 and U+00A0 in UTF-8.
abbrev space2 : ℕ → ℕ → Bool
space2 a b = a == 0xc2 && (b == 0x85 || b == 0xa0)

-- U+1680, U+2000 to U+200A, U+2028, U+2029, U+202F, U+205F and U+3000 in UTF-8.
abbrev space3 : ℕ → ℕ → ℕ → Bool
space3 a b c =
    (a == 0xe1 && b == 0x9a && c == 0x80)
    || (a == 0xe2
        && b == 0x80
        && ((leb 0x80 c && leb c 0x8a) || c == 0xa8 || c == 0xa9 || c == 0xaf))
    || (a == 0xe2 && b == 0x81 && c == 0x9f)
    || (a == 0xe3 && b == 0x80 && c == 0x80)

-- Drops white space from the front. A text is read from its front, or, with the tests turned
-- round, from its end.
strip : (ℕ → ℕ → Bool) → (ℕ → ℕ → ℕ → Bool) → Text → Text
strip p2 p3 [] = []
strip p2 p3 (a ∷ []) = if space1 a then [] else a ∷ []
strip p2 p3 (a ∷ b ∷ []) =
    let one = strip p2 p3 (b ∷ []) in if space1 a then one else if p2 a b then [] else a ∷ b ∷ []
strip p2 p3 (a ∷ b ∷ c ∷ r) =
    let one = strip p2 p3 (b ∷ c ∷ r) in
    let two = strip p2 p3 (c ∷ r) in
    let three = strip p2 p3 r in
    if space1 a then one else if p2 a b then two else if p3 a b c then three else a ∷ b ∷ c ∷ r

-- strings.TrimSpace
unfoldable pub trim_space : Text → Text
unfolding strip
trim_space s =
    reverse (strip (λ b a. space2 a b) (λ c b a. space3 a b c) (reverse (strip space2 space3 s)))

trim_space_both_ends : trim_space (lit "  ok go \n") ≡ lit "ok go"
unfolding trim_space
trim_space_both_ends = refl

trim_space_wide : trim_space (0xe3 ∷ 0x80 ∷ 0x80 ∷ 104 ∷ 0xc2 ∷ 0xa0 ∷ []) ≡ 104 ∷ []
unfolding trim_space
trim_space_wide = refl
