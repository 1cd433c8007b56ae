-- ===== src/AdvisoryJump.antt =====
-- assets/js/advisory_jump.js, `textRange` and `locate`: the text that an advisory names is found in
-- the text nodes of an editor, and marked as a range. A position is a node and an offset in it.
pub mod Place
pub mod Range
use kiln_cms.Prelude.{
  ℕ, zero, suc, ◌+◌, ◌-◌, Bool, true, false, Option, none, some, List, [], ◌∷◌, ◌++◌, length, min,
  Text, starts, ltb, if◌then◌else◌,
}

-- A text node: which one it is, where its text starts, and the text.
pub record Entry : Type 0 where
  pub node : ℕ
  pub start : ℕ
  pub text : Text

-- `nodes` and `text` as the walker leaves them, from a node and a length on.
unfoldable pub entries_from : ℕ → ℕ → List Text → List Entry
entries_from i start [] = []
entries_from i start (t ∷ ts) =
    record { node = i; start = start; text = t } ∷ entries_from (i + 1) (start + length t) ts

abbrev pub concat : List Text → Text
concat [] = []
concat (t ∷ ts) = t ++ concat ts

-- `indexOf`
unfoldable pub index_of : Text → Text → Option ℕ
index_of needle [] = if starts needle [] then some 0 else none
index_of needle (c ∷ s) =
    let rest = index_of needle s in
    if starts needle (c ∷ s) then some 0 else elim rest [ none ↦ none | some n ↦ some (suc n) ]

-- The loop of `locate`, with the last entry that starts at the offset or before.
unfoldable pub last_before : ℕ → Entry → List Entry → Entry
last_before offset hit [] = hit
last_before offset hit (e ∷ es) =
    let rest = last_before offset e es in if ltb offset e.start then hit else rest

pub record Position : Type 0 where
  pub hit : Entry
  pub offset : ℕ

unfoldable pub locate : List Entry → ℕ → Option Position
locate [] offset = none
locate (e ∷ es) offset =
    let hit = last_before offset e (e ∷ es) in
    some (record { hit = hit; offset = min (offset - hit.start) (length hit.text) })

-- The range from the first place of the needle to its end; none where it is not there. Where there
-- is no text node at all, `locate` throws.
unfoldable pub text_range : List Text → Text → Option (Option Position × Option Position)
text_range nodes needle = elim (index_of needle (concat nodes)) [
  | none ↦ none
  | some at ↦
      let entries = entries_from 0 0 nodes in
      some (locate entries at, locate entries (at + length needle))
]
