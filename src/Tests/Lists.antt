-- ===== src/Tests/Lists.antt =====
-- Runs of list_detect.js on pasted paragraphs.
use kiln_cms.Prelude.{◌≡◌, refl, true, some, List, [], ◌∷◌, All, drop, Text, codes}
use kiln_cms.ListDetect.{
  Paste, bullet, ordered, marker_of, bullets, numbers, plain, list, list_runs, counts, rebuild,
  listify_slice, runs_from, started, continued, marker_at, match_bullet, skip_spaces, match_number,
  read_digits, extend, begin_run, list_of,
}
use kiln_cms.ListDetect.Runs.{Splits, list_runs-Splits}
use kiln_cms.ListDetect.Slices.{Trimmed, nodes_in, listify_slice-Trimmed}

marker_of-glyph : marker_of (codes " • item") ≡ some (bullet true 3)
unfolding marker_of match_bullet skip_spaces
marker_of-glyph = refl

marker_of-number : marker_of (codes "12)  item") ≡ some (ordered 12 5)
unfolding marker_of match_bullet skip_spaces match_number read_digits
marker_of-number = refl

abbrev texts : Paste
texts = record { Node = Text; paragraph = λ _. true; first_text = λ t. some t; cut = drop }

abbrev pasted : List Text
pasted =
    codes "Intro"
    ∷ codes "• milk"
    ∷ codes "- eggs"
    ∷ codes "1. one"
    ∷ codes "2) two"
    ∷ codes "4. four"
    ∷ codes "- no list"
    ∷ []

listify_slice-pasted :
    (listify_slice texts pasted 1 1).content
    ≡ plain (codes "Intro")
      ∷ list bullets (codes "milk" ∷ codes "eggs" ∷ [])
      ∷ list numbers (codes "one" ∷ codes "two" ∷ [])
      ∷ plain (codes "4. four")
      ∷ plain (codes "- no list")
      ∷ []
unfolding listify_slice list_runs runs_from started continued marker_at marker_of match_bullet
    skip_spaces match_number read_digits extend begin_run rebuild list_of
listify_slice-pasted = refl

list_runs-Splits_example :
    Splits texts 0 pasted (list_runs texts pasted)
    × All (λ run. counts texts run ≡ true) (list_runs texts pasted)
list_runs-Splits_example = list_runs-Splits texts pasted

listify_slice-Trimmed_example :
    Trimmed texts pasted (nodes_in texts (listify_slice texts pasted 1 1).content)
listify_slice-Trimmed_example = listify_slice-Trimmed texts pasted 1 1
