-- ===== src/Transform/Ratio/Spelling.antt =====
-- The one spelling of an aspect ratio.
use kiln_cms.Prelude.{
  ℕ, ◌+◌, ◌≤◌, ◌≡◌, refl, sym, ◌∙◌, ap, ap₂, List, [], ◌∷◌, map, ok, >>=-eq-ok, Text, split_on,
  join, join-split_on, show, show_from_digit, show_two_digits, read_from, ◌<◌, ◌/◌, ◌%◌, arith,
}
use kiln_cms.Transform.{whole, text}
use kiln_cms.Transform.Ratio.{parse_ratio_side, ratio_of, aspect_parts, print_ratio, ratio}
use kiln_cms.Transform.Ratio.Print.{ratio_of-ok}

one_digit : (a : ℕ) {n : ℕ} → parse_ratio_side (a ∷ []) ≡ whole n → (n < 10) × (n + b'0' ≡ a)
unfolding parse_ratio_side read_from
one_digit a e = ground arith

two_digits :
    (a b : ℕ) {n : ℕ}
    → parse_ratio_side (a ∷ b ∷ []) ≡ whole n
    → (10 ≤ n) × (n < 100) × (n / 10 + b'0' ≡ a) × (n % 10 + b'0' ≡ b)
unfolding parse_ratio_side read_from
two_digits a b e = ground arith

parse_ratio_side-show : (t : Text) {n : ℕ} → parse_ratio_side t ≡ whole n → show n ≡ t
unfolding show
parse_ratio_side-show [] e = unfold parse_ratio_side in cc
parse_ratio_side-show (a ∷ []) {n} e =
    let (small, same) = one_digit a e in show_from_digit n n small ∙ ap (λ c. c ∷ []) same
parse_ratio_side-show (a ∷ b ∷ []) {n} e =
    let (low, high, first, second) = two_digits a b e in
    show_two_digits n low high ∙ ap₂ (λ c d. c ∷ d ∷ []) first second
parse_ratio_side-show (a ∷ b ∷ c ∷ t) e = unfold parse_ratio_side in cc

two_parts :
    (ws : List Text) {a b : ℕ}
    → map parse_ratio_side ws ≡ whole a ∷ whole b ∷ []
    → ws ≡ show a ∷ show b ∷ []
two_parts [] e = cc
two_parts (v ∷ []) e = cc
two_parts (v ∷ w ∷ []) {a} {b} e =
    ap₂ (λ x y. x ∷ y ∷ []) (sym (parse_ratio_side-show v (cc)))
      (sym (parse_ratio_side-show w (cc)))
two_parts (u ∷ v ∷ w ∷ ws) e = cc

join_two : (a b : ℕ) → join (b':' ∷ []) (show a ∷ show b ∷ []) ≡ print_ratio (a, b)
unfolding join
join_two a b = refl

-- An aspect ratio given as a text is passed on letter for letter or refused: what `ratio` accepts
-- is spelled the one way in which the server reads it.
pub ratio-text : (s : Text) {t : Text} → ratio (text s) ≡ ok t → t ≡ s
unfolding ratio
ratio-text s e =
    let ((a, b), accepted, printed) = >>=-eq-ok (ratio_of (aspect_parts (text s))) _ e in
    let (parts, _, _) = ratio_of-ok (aspect_parts (text s)) accepted in
    let split : split_on b':' s ≡ show a ∷ show b ∷ [] = two_parts (split_on b':' s) parts in
    cc (join-split_on b':' s, ap (join (b':' ∷ [])) split, join_two a b)
