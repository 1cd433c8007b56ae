-- ===== src/Transform/Ratio/Print.antt =====
-- Printing an aspect ratio and reading it back.
use kiln_cms.Prelude.{
  ℕ, ◌≤◌, ◌≢◌, ◌≡◌, refl, ◌∙◌, ap, ap₂, List, [], ◌∷◌, ◌++◌, Result, ok, err, ◌>>=◌, Text, All,
  All-mono, IsDigit, Without, split_on, split_on-append, split_on-Without, show, show-IsDigit,
  read-show, arith,
}
use kiln_cms.Transform.{TransformError, Num, whole, Aspect}
use kiln_cms.Transform.Ratio.{ratio_of, aspect_parts, print_ratio, ratio_parts, first_two}

digits-Without : (s : Text) → All IsDigit s → Without b':' s
digits-Without = All-mono IsDigit (λ x. x ≢ b':') (λ x d. omega arith)

split_on-print_ratio : (a b : ℕ) → split_on b':' (show a ++ b':' ∷ show b) ≡ show a ∷ show b ∷ []
split_on-print_ratio a b =
    split_on-append b':' (show a) (show b) (digits-Without (show a) (show-IsDigit a))
    ∙ ap (λ t. show a ∷ t)
        (split_on-Without b':' (show b) (digits-Without (show b) (show-IsDigit b)))

read_back :
    (m : Result TransformError (ℕ × ℕ))
    → (do s ← (do r ← m; ok (print_ratio r)); ok (first_two (split_on b':' s))) ≡ m
read_back (err e) = refl
read_back (ok (a, b)) =
    ap (λ t. ok (first_two t)) (split_on-print_ratio a b)
    ∙ ap₂ (λ x y. ok (x, y)) (read-show a) (read-show b)

-- `ratioParts`, which prints the ratio and reads the text again, gives the very sides that were
-- checked, and throws exactly where the check does.
pub ratio_parts-ratio_of : (v : Aspect) → ratio_parts v ≡ ratio_of (aspect_parts v)
unfolding ratio_parts
ratio_parts-ratio_of v = read_back (ratio_of (aspect_parts v))

abbrev IsSide : ℕ → Type 0
IsSide n = (1 ≤ n) × (n ≤ 99)

-- A ratio is accepted only if it has two sides, both whole numbers from 1 to 99.
pub ratio_of-ok :
    (ns : List Num) {a b : ℕ}
    → ratio_of ns ≡ ok (a, b)
    → (ns ≡ whole a ∷ whole b ∷ []) × IsSide a × IsSide b
unfolding ratio_of
ratio_of-ok (whole a ∷ whole b ∷ []) e = ground arith
ratio_of-ok _ e = cc
