-- ===== src/Transform/Ladder.antt =====
-- The size ladder of clients/js/src/transform.ts: `checkLadder` and `snapTransformSize`.
pub mod Snap
use kiln_cms.Prelude.{
  ℕ, Option, none, some, List, [], ◌∷◌, Result, ok, err, ◌>>=◌, traverse, sort, or_else, leb,
  if◌then◌else◌,
}
use kiln_cms.Transform.{Num, TransformError, no_sizes, positive_integer}

unfoldable pub check_ladder : List Num → Result TransformError (List ℕ)
unfolding positive_integer sort
check_ladder [] = err no_sizes
check_ladder (s ∷ ss) = do sizes ← traverse (positive_integer "sizes[]") (s ∷ ss); ok (sort sizes)

-- `ladder.find((size) => size >= value)`
unfoldable pub find_rung : ℕ → List ℕ → Option ℕ
find_rung value [] = none
find_rung value (s ∷ ss) = if leb value s then some s else find_rung value ss

-- `ladder[ladder.length - 1]`; the ladder is never empty
unfoldable pub last : List ℕ → ℕ
last [] = 0
last (s ∷ []) = s
last (_ ∷ s ∷ ss) = last (s ∷ ss)

unfoldable pub snap : ℕ → List ℕ → ℕ
unfolding find_rung last
snap value ladder = or_else (find_rung value ladder) (last ladder)

unfoldable pub snap_transform_size : ℕ → List Num → Result TransformError ℕ
unfolding check_ladder snap
snap_transform_size value sizes = do ladder ← check_ladder sizes; ok (snap value ladder)
