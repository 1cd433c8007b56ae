-- ===== src/Transform/Ratio.antt =====
-- Aspect ratios of clients/js/src/transform.ts: `ratio`, its sides and `ratioParts`.
pub mod Print
pub mod Spelling
use kiln_cms.Prelude.{
  ℕ, ◌-◌, ◌*◌, ◌+◌, Bool, true, false, ◌&&◌, List, [], ◌∷◌, ◌++◌, map, Result, ok, err, ◌>>=◌, Text,
  leb, is_digit, split_on, show, read, if◌then◌else◌,
}
use kiln_cms.Transform.{Num, whole, other, Aspect, text, sides, TransformError, bad_ratio}

-- `parseRatioSide`: the pattern ^[1-9][0-9]?$
unfoldable pub parse_ratio_side : Text → Num
unfolding read
parse_ratio_side (a ∷ []) = if leb b'1' a && leb a b'9' then whole (read (a ∷ [])) else other
parse_ratio_side (a ∷ b ∷ []) =
    if leb b'1' a && leb a b'9' && is_digit b then whole (read (a ∷ b ∷ [])) else other
parse_ratio_side _ = other

unfoldable pub ratio_side : Num → Bool
ratio_side other = false
ratio_side (whole n) = leb 1 n && leb n 99

-- The checks of `ratio`, and the two sides where they pass.
unfoldable pub ratio_of : List Num → Result TransformError (ℕ × ℕ)
unfolding ratio_side
ratio_of (whole a ∷ whole b ∷ []) =
    if ratio_side (whole a) && ratio_side (whole b) then ok (a, b) else err bad_ratio
ratio_of _ = err bad_ratio

abbrev pub aspect_parts : Aspect → List Num
aspect_parts (text s) = map parse_ratio_side (split_on b':' s)
aspect_parts (sides ns) = ns

abbrev pub print_ratio : ℕ × ℕ → Text
print_ratio (a, b) = show a ++ b':' ∷ show b

unfoldable pub ratio : Aspect → Result TransformError Text
ratio v = do r ← ratio_of (aspect_parts v); ok (print_ratio r)

-- `[a!, b!]` of the numbers read; `ratio` gives two of them
abbrev pub first_two : List Text → ℕ × ℕ
first_two (a ∷ b ∷ _) = (read a, read b)
first_two _ = (0, 0)

unfoldable pub ratio_parts : Aspect → Result TransformError (ℕ × ℕ)
unfolding ratio
ratio_parts v = do s ← ratio v; ok (first_two (split_on b':' s))
