-- ===== src/Api/Video/Tags.antt =====
-- extractTags of internal/api/video/service.go. `word` gives the number of bytes of the letter, digit
-- or underscore at the front of a text, by Unicode's classes L and N, and 0 where there is none.
use go_video.Prelude.{
  ℕ, zero, suc, ◌-◌, ltb, ◌==◌, Option, none, some, List, [], ◌∷◌, ◌++◌, any, if◌then◌else◌,
}
use go_video.Prelude.Text.{Text, text_eq}

-- The bytes that a match has collected since its '#'; an empty one is no match.
abbrev pub finish : Option Text → List Text
finish none = []
finish (some []) = []
finish (some (c ∷ cs)) = (c ∷ cs) ∷ []

-- A '#' starts a match.
abbrev pub start : ℕ → Option Text
start c = if c == b'#' then some [] else none

-- FindAllStringSubmatch of `#([\p{L}\p{N}_]+)`: the first groups, in order. The first number counts
-- the bytes that are left of a character.
pub matches : (Text → ℕ) → ℕ → Option Text → Text → List Text
matches word k o [] = finish o
matches word (suc k) none (c ∷ cs) = matches word k none cs
matches word (suc k) (some tag) (c ∷ cs) = matches word k (some (tag ++ c ∷ [])) cs
matches word zero none (c ∷ cs) = matches word 0 (start c) cs
matches word zero (some tag) (c ∷ cs) =
    let more = matches word (word (c ∷ cs) - 1) (some (tag ++ c ∷ [])) cs in
    let other = finish (some tag) ++ matches word 0 (start c) cs in
    if ltb 0 (word (c ∷ cs)) then more else other

-- The texts that were not seen before.
pub unseen : List Text → List Text → List Text
unseen seen [] = []
unseen seen (t ∷ ts) =
    let rest = unseen (t ∷ seen) ts in if any (text_eq t) seen then unseen seen ts else t ∷ rest

unfoldable pub extract_tags : (Text → ℕ) → Text → List Text
unfolding matches unseen
extract_tags word text = unseen [] (matches word 0 none text)
