-- ===== src/Tests/Editor.antt =====
-- Runs of the hooks of app.js.
use kiln_cms.Prelude.{
  ◌≡◌, refl, true, false, none, some, List, [], ◌∷◌, Text, codes, trim_start, trim_end, split_on,
  All,
}
use kiln_cms.Hooks.Presence.{PresenceEvent, focus_in, focus_out, timer_rings}
use kiln_cms.Hooks.Presence.Truthful.{opening, scene_run, IsTruthful, scene_run-IsTruthful}
use kiln_cms.Hooks.Inserter.{
  Choice, Inserter, clicks, visible_options, matches, filter, highlight, hide_others, open_menu,
  move, toggle, press_enter, toggles, arrow_down, enter, types, step, InserterEvent,
}
use kiln_cms.Hooks.Inserter.Fit.{run_inserter, Picks, run_inserter-Picks}
use kiln_cms.Hooks.Terms.{terms_of, split_terms}
use kiln_cms.Hooks.Terms.Clean.{IsItem, terms_of-IsItem}
use kiln_cms.Hooks.Pointer.{right, focal_key, focal_of, nudge_on}

abbrev comings : List PresenceEvent
comings = focus_in ∷ focus_out 1000 ∷ focus_in ∷ focus_out 2000 ∷ timer_rings 2120 ∷ []

scene_run-IsTruthful_example : IsTruthful (scene_run comings (opening (some (codes "b1"))))
scene_run-IsTruthful_example = scene_run-IsTruthful (some (codes "b1")) comings

abbrev choice : Text → Text → Choice
choice id label = record { id = id; label = label; type_ = id; hidden = false }

abbrev blocks : Inserter
blocks = record {
  open_ = false;
  search = [];
  choices = choice (codes "quote") (codes "Quote") ∷ choice (codes "image") (codes "Image") ∷ [];
  active_index = 0;
  descendant = none;
  nothing_found = false;
}

abbrev searching : List InserterEvent
searching = toggles ∷ types (codes " IM") ∷ arrow_down ∷ []

searching-opens : (run_inserter searching blocks).open_ ≡ true
unfolding run_inserter step toggle open_menu filter highlight hide_others matches visible_options
    move trim_start trim_end
searching-opens = refl

clicks_image : (step enter (run_inserter searching blocks)).1 ≡ clicks (codes "image")
unfolding run_inserter step toggle open_menu filter highlight hide_others matches visible_options
    move trim_start trim_end press_enter
clicks_image = refl

run_inserter-Picks_example : Picks (run_inserter searching blocks)
run_inserter-Picks_example = run_inserter-Picks searching blocks refl searching-opens

splits_tags : terms_of false (codes " a, b,,c ") ≡ codes "a" ∷ codes "b" ∷ codes "c" ∷ []
unfolding terms_of split_terms split_on trim_start trim_end
splits_tags = refl

terms_of-IsItem_example : All (IsItem false) (terms_of false (codes " a, b,,c "))
terms_of-IsItem_example = terms_of-IsItem false (codes " a, b,,c ")

-- From the left edge, a nudge to the right leads past the middle.
jumps_from_the_edge : focal_key right (some 0) (some 500) ≡ some (record { x = 550; y = 500 })
unfolding focal_key focal_of nudge_on
jumps_from_the_edge = refl
