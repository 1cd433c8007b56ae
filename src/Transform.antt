-- ===== src/Transform.antt =====
-- clients/js/src/transform.ts: URLs of Kiln's image-transform endpoint. This file holds the data;
-- the children hold the parts of the source.
pub mod Ladder
pub mod Ratio
pub mod Version
pub mod Ops
pub mod Srcset
use kiln_cms.Prelude.{
  ℕ, Bool, Option, none, some, List, [], ◌∷◌, Text, String, Result, ok, err, leb, le→leb,
  if◌then◌else◌, traverse, All, ◌≤◌, ◌≡◌, refl, arith, ◌>>=◌, >>=-eq-ok,
}

-- A JavaScript number given as a size: a whole number from 0 on, or any other (a fraction, a
-- negative number, NaN), which every check refuses.
pub data Num : Type 0 where
  whole : ℕ → Num
  other : Num

-- A finite coordinate times 1000, as the machine gives it: a sign and a fraction, whose denominator
-- is one more than `den_pred`.
pub record Milli : Type 0 where
  pub negative : Bool
  pub num : ℕ
  pub den_pred : ℕ

pub record TransformMedia : Type 0 where
  pub id : Option Text  -- none where it is no string
  pub url : Option Text
  pub focal_x : Option Milli  -- none where it is missing or not finite
  pub focal_y : Option Milli
  pub width : Option Num
  pub height : Option Num

-- `aspectRatio`, as a text or as an array
pub data Aspect : Type 0 where
  text : Text → Aspect
  sides : List Num → Aspect

pub record TransformOptions : Type 0 where
  pub width : Option Num
  pub height : Option Num
  pub aspect_ratio : Option Aspect
  pub dpr : Option Num
  pub fit : Option Text
  pub crop : Option Text
  pub format : Option Text
  pub quality : Option Num
  pub sizes : Option (List Num)

-- The errors that the builders throw, with the option that they name.
pub data TransformError : Type 0 where
  bad_id no_sizes both_sides bad_dpr bad_quality bad_ratio : TransformError
  not_positive : String → TransformError
  not_one_of : String → TransformError

-- `positiveInteger`; the number is passed on
unfoldable pub positive_integer : String → Num → Result TransformError ℕ
positive_integer key other = err (not_positive key)
positive_integer key (whole n) = if leb 1 n then ok n else err (not_positive key)

abbrev pub default_transform_sizes : List Num
default_transform_sizes =
    whole 16
    ∷ whole 32
    ∷ whole 48
    ∷ whole 64
    ∷ whole 96
    ∷ whole 128
    ∷ whole 256
    ∷ whole 384
    ∷ whole 640
    ∷ whole 750
    ∷ whole 828
    ∷ whole 1080
    ∷ whole 1200
    ∷ whole 1920
    ∷ whole 2048
    ∷ whole 3840
    ∷ []

abbrev pub IsPositive : Num → Type 0
IsPositive other = ⊥
IsPositive (whole n) = 1 ≤ n

-- The numbers of a list of sizes that hold nothing else.
abbrev pub wholes : List Num → List ℕ
wholes [] = []
wholes (other ∷ ns) = wholes ns
wholes (whole n ∷ ns) = n ∷ wholes ns

pub positive_integer-ok :
    (key : String) (x : Num) {n : ℕ} → positive_integer key x ≡ ok n → (x ≡ whole n) × (1 ≤ n)
unfolding positive_integer
positive_integer-ok key other e = cc
positive_integer-ok key (whole m) e = ground arith

pub traverse-positive :
    (key : String) (xs : List Num)
    → All IsPositive xs
    → traverse (positive_integer key) xs ≡ ok (wholes xs)
unfolding positive_integer
traverse-positive key [] h = refl
traverse-positive key (other ∷ xs) (p, h) = absurd p
traverse-positive key (whole n ∷ xs) (p, h) =
    rw (le→leb 1 n p) (rw (traverse-positive key xs h) refl)

pub IsPositive-of_traverse :
    (key : String) (xs : List Num) {ns : List ℕ}
    → traverse (positive_integer key) xs ≡ ok ns
    → (ns ≡ wholes xs) × All IsPositive xs
unfolding positive_integer
IsPositive-of_traverse key [] e = (cc, tt)
IsPositive-of_traverse key (other ∷ xs) e = cc
IsPositive-of_traverse key (whole n ∷ xs) e =
    let (m, first, e') = >>=-eq-ok (positive_integer key (whole n)) _ e in
    let (ms, rest, e'') = >>=-eq-ok (traverse (positive_integer key) xs) _ e' in
    let (same, pos) = positive_integer-ok key (whole n) first in
    let (eq, h) = IsPositive-of_traverse key xs rest in (cc, (ground arith, h))
