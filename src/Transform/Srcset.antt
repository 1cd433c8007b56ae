-- ===== src/Transform/Srcset.antt =====
-- `srcset`s of clients/js/src/transform.ts: `srcsetCandidates` and the builders over it.
pub mod Unique
pub mod Candidates
use kiln_cms.Prelude.{
  ℕ, ◌*◌, ◌/◌, ◌+◌, min, max, Bool, true, false, not, ◌&&◌, ◌||◌, Option, none, some, List, [], ◌∷◌,
  ◌++◌, map, keep, any, Result, ok, err, ◌>>=◌, traverse, Text, codes, join, show, sort, or_else,
  leb, ◌==◌, if◌then◌else◌,
}
use kiln_cms.Transform.{
  Num, whole, other, Aspect, TransformMedia, TransformOptions, TransformError, positive_integer,
  default_transform_sizes,
}
use kiln_cms.Transform.Ladder.{check_ladder, snap_transform_size}
use kiln_cms.Transform.Ratio.{ratio_parts}
use kiln_cms.Transform.Version.{round_half}
use kiln_cms.Transform.Ops.{canonical_ops, path_for, append_signature}

pub record SrcsetCandidate : Type 0 where
  pub width : ℕ
  pub described : ℕ

-- `[...new Set(…)]`: the first of equal numbers is kept
unfoldable pub unique : List ℕ → List ℕ
unique [] = []
unique (x ∷ xs) = x ∷ keep (λ y. not (y == x)) (unique xs)

-- The loop of `srcsetCandidates`, with the set `seen`.
unfoldable pub candidates : ℕ → List ℕ → List ℕ → List SrcsetCandidate
candidates widest seen [] = []
candidates widest seen (w ∷ ws) =
    let d = min w widest in
    let skipped = candidates widest seen ws in
    let kept = record { width = w; described = d } ∷ candidates widest (d ∷ seen) ws in
    if any (λ s. s == d) seen then skipped else kept

unfoldable pub pick : ℕ → List ℕ → List SrcsetCandidate
unfolding candidates
pick widest widths = candidates widest [] (sort (unique widths))

-- `widest`: the width of the item, or of the largest window of the shape. The quotient is rounded
-- as a fraction: a half is exact in a double, and no other quotient of these is near one.
unfoldable pub widest_of : ℕ → ℕ → Option Aspect → Result TransformError ℕ
widest_of sw sh none = ok sw
widest_of sw sh (some aspect) = do
  (a, b) ← ratio_parts aspect
  ok (min sw (max 1 (round_half (sh * a) b)))

-- The widths asked for, each checked, and snapped where the URL is unsigned.
unfoldable pub asked_width : Bool → List ℕ → Num → Result TransformError ℕ
asked_width snap ladder width = do
  n ← positive_integer "widths[]" width
  if snap then snap_transform_size n (map whole ladder) else ok n

abbrev pub asked_widths : Option (List Num) → List ℕ → List Num
asked_widths none ladder = map whole (keep (leb 256) ladder)
asked_widths (some widths) ladder = widths

-- A size of the item: a positive whole number, or none.
abbrev pub positive_size : Option Num → Option ℕ
positive_size none = none
positive_size (some other) = none
positive_size (some (whole n)) = if leb 1 n then some n else none

unfoldable pub candidates_within :
    TransformOptions
    → Option (List Num)
    → Bool
    → ℕ
    → ℕ
    → Result TransformError (List SrcsetCandidate)
candidates_within options widths snap sw sh = do
  widest ← widest_of sw sh options.aspect_ratio
  ladder ← check_ladder (or_else options.sizes default_transform_sizes)
  asked ← traverse (asked_width snap ladder) (asked_widths widths ladder)
  ok (pick widest asked)

-- none for an item whose size is unknown
unfoldable pub srcset_candidates :
    TransformMedia
    → TransformOptions
    → Option (List Num)
    → Bool
    → Option (Result TransformError (List SrcsetCandidate))
srcset_candidates media options widths snap = elim (positive_size media.width) [
  | none ↦ none
  | some sw ↦ elim (positive_size media.height) [
    | none ↦ none
    | some sh ↦ some (candidates_within options widths snap sw sh)
  ]
]

-- `candidateOptions`
abbrev pub candidate_options : TransformOptions → ℕ → TransformOptions
candidate_options options w = record options { width = some (whole w); height = none }

-- The operations, signed where there is a key.
unfoldable pub signed_ops : Option (Text → Text) → TransformMedia → Text → Text
signed_ops none media ops = ops
signed_ops (some sign) media ops = append_signature ops (sign (or_else media.id [] ++ b'/' ∷ ops))

-- One entry: the path at the candidate's width, signed where there is a key, and its width.
unfoldable pub srcset_entry :
    TransformMedia
    → TransformOptions
    → Text
    → Option (Text → Text)
    → SrcsetCandidate
    → Result TransformError Text
srcset_entry media options origin sign c = do
  ops ← canonical_ops media (candidate_options options c.width) false
  let full = signed_ops sign media ops
  ok (origin ++ (path_for media full ++ (b' ' ∷ (show c.described ++ b'w' ∷ []))))

unfoldable pub build_srcset :
    TransformMedia
    → TransformOptions
    → Option (List Num)
    → Text
    → Option (Text → Text)
    → Bool
    → Option (Result TransformError Text)
build_srcset media options widths origin sign snap =
    elim (srcset_candidates media options widths snap) [
      | none ↦ none
      | some r ↦ some (do
        cs ← r
        entries ← traverse (srcset_entry media options origin sign) cs
        ok (join (codes ", ") entries))
    ]

-- `transformSrcset` snaps the widths and does not sign; `signedTransformSrcset` does the reverse.
unfoldable pub transform_srcset :
    TransformMedia → TransformOptions → Option (List Num) → Option (Result TransformError Text)
transform_srcset media options widths = build_srcset media options widths [] none true

unfoldable pub signed_transform_srcset :
    (sign : Text → Text)
    → TransformMedia
    → TransformOptions
    → Option (List Num)
    → Option (Result TransformError Text)
signed_transform_srcset sign media options widths =
    build_srcset media options widths [] (some sign) false
