-- ===== src/Tests/Jump.antt =====
-- Runs of advisory_jump.js on the text nodes of a paragraph.
use kiln_cms.Prelude.{none, ◌≡◌, refl, some, List, [], ◌∷◌, ◌++◌, length, Text, codes, Option}
use kiln_cms.AdvisoryJump.{
  Position, text_range, index_of, locate, last_before, entries_from, concat,
}
use kiln_cms.AdvisoryJump.Place.{IsFirst}
use kiln_cms.AdvisoryJump.Range.{text_range-spans, before}

abbrev nodes : List Text
nodes = codes "Read " ∷ codes "mo" ∷ codes "re here" ∷ []

abbrev starts_at : Position
starts_at = record { hit = record { node = 1; start = 5; text = codes "mo" }; offset = 0 }

abbrev ends_at : Position
ends_at = record { hit = record { node = 2; start = 7; text = codes "re here" }; offset = 2 }

abbrev ends : Option Position × Option Position
ends = (some starts_at, some ends_at)

text_range-more : text_range nodes (codes "more") ≡ some ends
unfolding text_range index_of locate last_before entries_from
text_range-more = refl

text_range-spans_example :
    (f : Position) × (t : Position) × (ends ≡ (some f, some t))
    × (before t nodes ≡ before f nodes ++ codes "more")
    × IsFirst (codes "more") (concat nodes) (length (before f nodes))
text_range-spans_example = text_range-spans nodes b'm' (codes "ore") text_range-more

text_range-moor : text_range nodes (codes "moor") ≡ none
unfolding text_range index_of
text_range-moor = refl
