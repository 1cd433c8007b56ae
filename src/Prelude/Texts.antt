-- ===== src/Prelude/Texts.antt =====
-- Text that the program walks: the list of its UTF-16 code units.
use Prim.Native.Nat.{ℕ, zero, suc, ◌+◌, ◌-◌, ◌*◌, ◌/◌, ◌%◌, ◌≤◌, ◌<◌}
use Prim.Native.Char.{code}
use Prim.Native.String.{String}
use mathlib.Core.Path.{◌≡◌, refl, ap, ap₂, sym, ◌∙◌}
use mathlib.Core.Logic.{◌↔◌, ◌≢◌, inl, inr}
use mathlib.Core.Bool.{Bool, true, false, ◌&&◌, ◌||◌}
use mathlib.Core.List.{List, [], ◌∷◌, ◌++◌}
use native.Mathlib.Omega.{arith}
use kiln_cms.Prelude.Tests.{ltb, lt→ltb, le→ltb_false, ==_iff, leb, ◌==◌, if◌then◌else◌, Bool-cases}
use kiln_cms.Prelude.Every.{All, All-append}

abbrev pub Text : Type 0
Text = List ℕ

-- A literal of the source; all of those used here lie in the basic plane.
abbrev pub codes : String → Text
codes String.[] = []
codes (String.◌∷◌ c s) = code c ∷ codes s

abbrev pub text_eq : Text → Text → Bool
text_eq [] [] = true
text_eq (a ∷ s) (b ∷ t) = a == b && text_eq s t
text_eq _ _ = false

pub text_eq_iff : (s t : Text) → (text_eq s t ≡ true) ↔ (s ≡ t)
text_eq_iff [] [] = ground arith
text_eq_iff [] (b ∷ t) = ground arith
text_eq_iff (a ∷ s) [] = ground arith
text_eq_iff (a ∷ s) (b ∷ t) = ground (arith, text_eq_iff s t)

abbrev pub is_digit : ℕ → Bool
is_digit c = leb b'0' c && leb c b'9'

-- A number in decimal, with fuel; `show n` has enough.
unfoldable pub show_from : ℕ → ℕ → Text
show_from zero n = (n % 10 + b'0') ∷ []
show_from (suc f) n =
    let rest = show_from f (n / 10) in
    if ltb n 10 then (n + b'0') ∷ [] else rest ++ (n % 10 + b'0') ∷ []

unfoldable pub show : ℕ → Text
unfolding show_from
show n = show_from n n

abbrev pub IsDigit : ℕ → Type 0
IsDigit c = (b'0' ≤ c) × (c ≤ b'9')

show_from-IsDigit : (f n : ℕ) → All IsDigit (show_from f n)
unfolding show_from
show_from-IsDigit zero n = (omega arith, tt)
show_from-IsDigit (suc f) n = elim (Bool-cases (ltb n 10)) [
  | inl small ↦ rw small (ground arith, tt)
  | inr large ↦
      rw large (
        All-append IsDigit (show_from f (n / 10)) _ (show_from-IsDigit f (n / 10))
          (omega arith, tt))
]

pub show-IsDigit : (n : ℕ) → All IsDigit (show n)
unfolding show
show-IsDigit n = show_from-IsDigit n n

-- `text.split(c)`
abbrev pub cons_head : ℕ → List Text → List Text
cons_head x [] = (x ∷ []) ∷ []
cons_head x (w ∷ ws) = (x ∷ w) ∷ ws

unfoldable pub split_on : ℕ → Text → List Text
split_on c [] = [] ∷ []
split_on c (x ∷ s) = let rest = split_on c s in if x == c then [] ∷ rest else cons_head x rest

-- `parts.join(sep)`
unfoldable pub join : Text → List Text → Text
join sep [] = []
join sep (w ∷ []) = w
join sep (w ∷ v ∷ ws) = w ++ (sep ++ join sep (v ∷ ws))

abbrev pub Without : ℕ → Text → Type 0
Without c = All (λ x. x ≢ c)

pub split_on-Without : (c : ℕ) (s : Text) → Without c s → split_on c s ≡ s ∷ []
unfolding split_on
split_on-Without c [] h = refl
split_on-Without c (x ∷ s) (p, h) = ground (arith, split_on-Without c s h)

-- A separator ends the first part.
pub split_on-append :
    (c : ℕ) (s t : Text) → Without c s → split_on c (s ++ c ∷ t) ≡ s ∷ split_on c t
unfolding split_on
split_on-append c [] t h = ground arith
split_on-append c (x ∷ s) t (p, h) = ground (arith, split_on-append c s t h)

-- `Number(text)` of a text of digits
unfoldable pub read_from : ℕ → Text → ℕ
read_from acc [] = acc
read_from acc (c ∷ s) = read_from (acc * 10 + (c - b'0')) s

unfoldable pub read : Text → ℕ
unfolding read_from
read s = read_from 0 s

read_from-snoc :
    (acc : ℕ) (s : Text) (c : ℕ) → read_from acc (s ++ c ∷ []) ≡ read_from acc s * 10 + (c - b'0')
unfolding read_from
read_from-snoc acc [] c = refl
read_from-snoc acc (x ∷ s) c = read_from-snoc (acc * 10 + (x - b'0')) s c

read-show_from : (f n : ℕ) → n ≤ f → read_from 0 (show_from f n) ≡ n
unfolding show_from
read-show_from zero n h = unfold read_from in omega arith
read-show_from (suc f) n h = elim (Bool-cases (ltb n 10)) [
  | inl small ↦ rw small (unfold read_from in omega arith)
  | inr large ↦ rw large (
      read_from-snoc 0 (show_from f (n / 10)) (n % 10 + b'0')
      ∙ omega (arith, read-show_from f (n / 10) (ground arith)))
]

-- A printed number is read back.
pub read-show : (n : ℕ) → read (show n) ≡ n
unfolding read show
read-show n = read-show_from n n (omega arith)

join-cons_head : (sep : Text) (x : ℕ) (ws : List Text) → join sep (cons_head x ws) ≡ x ∷ join sep ws
unfolding join
join-cons_head sep x [] = refl
join-cons_head sep x (w ∷ []) = refl
join-cons_head sep x (w ∷ v ∷ ws) = refl

join-nil : (sep : Text) (ws : List Text) → ws ≢ [] → join sep ([] ∷ ws) ≡ sep ++ join sep ws
unfolding join
join-nil sep [] h = absurd (h refl)
join-nil sep (w ∷ ws) h = refl

cons_head-ne_nil : (x : ℕ) (ws : List Text) → cons_head x ws ≢ []
cons_head-ne_nil x [] e = cc
cons_head-ne_nil x (w ∷ ws) e = cc

split_on-ne_nil : (c : ℕ) (s : Text) → split_on c s ≢ []
unfolding split_on
split_on-ne_nil c [] e = cc
split_on-ne_nil c (x ∷ s) e = elim (Bool-cases (x == c)) [
  | inl same ↦ cc (rw same at e)
  | inr differ ↦ cons_head-ne_nil x (split_on c s) (rw differ at e)
]

-- What is split at a separator is joined again by it.
pub join-split_on : (c : ℕ) (s : Text) → join (c ∷ []) (split_on c s) ≡ s
unfolding split_on
join-split_on c [] = unfold join in refl
join-split_on c (x ∷ s) = elim (Bool-cases (x == c)) [
  | inl same ↦ rw same (
      join-nil (c ∷ []) (split_on c s) (split_on-ne_nil c s)
      ∙ ap₂ (λ y t. y ∷ t) (sym ((==_iff x c).0 same)) (join-split_on c s))
  | inr differ ↦
      rw differ (join-cons_head (c ∷ []) x (split_on c s) ∙ ap (λ t. x ∷ t) (join-split_on c s))
]

pub show_from_digit : (f n : ℕ) → n < 10 → show_from f n ≡ (n + b'0') ∷ []
unfolding show_from
show_from_digit zero n h = ap (λ k. k ∷ []) (omega arith)
show_from_digit (suc f) n h = rw (lt→ltb n 10 h) refl

pub show_two_digits : (n : ℕ) → 10 ≤ n → n < 100 → show n ≡ (n / 10 + b'0') ∷ (n % 10 + b'0') ∷ []
unfolding show show_from
show_two_digits zero h k = absurd (omega arith)
show_two_digits (suc f) h k =
    rw (le→ltb_false (suc f) 10 h, show_from_digit f (suc f / 10) (omega arith)) refl

-- The characters that `\s` matches and `trim` removes.
abbrev pub is_space : ℕ → Bool
is_space c =
    (leb 9 c && leb c 13)
    || c == 32
    || c == 0xa0
    || c == 0x1680
    || (leb 0x2000 c && leb c 0x200a)
    || c == 0x2028
    || c == 0x2029
    || c == 0x202f
    || c == 0x205f
    || c == 0x3000
    || c == 0xfeff

-- `toLowerCase`, of the ASCII letters; the others are left as they are
abbrev pub lower : Text → Text
lower [] = []
lower (c ∷ s) = (if leb b'A' c && leb c b'Z' then c + 32 else c) ∷ lower s

-- `text.startsWith(prefix)`
abbrev pub starts : Text → Text → Bool
starts [] s = true
starts (c ∷ p) [] = false
starts (c ∷ p) (d ∷ s) = c == d && starts p s

-- `text.includes(part)`
abbrev pub includes : Text → Text → Bool
includes part [] = starts part []
includes part (c ∷ s) = starts part (c ∷ s) || includes part s

-- `text.trim()`
abbrev pub is_empty : Text → Bool
is_empty [] = true
is_empty (_ ∷ _) = false

unfoldable pub trim_start : Text → Text
trim_start [] = []
trim_start (c ∷ s) = let rest = trim_start s in if is_space c then rest else c ∷ s

unfoldable pub trim_end : Text → Text
trim_end [] = []
trim_end (c ∷ s) = let rest = trim_end s in if is_empty rest && is_space c then [] else c ∷ rest

abbrev pub trim : Text → Text
trim s = trim_start (trim_end s)
