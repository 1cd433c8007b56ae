-- ===== src/Hooks/Inserter.antt =====
-- `BlockInserter` of assets/js/app.js: the menu of blocks, its filter and its keys.
pub mod Fit
use kiln_cms.Prelude.{
  ℕ, ◌+◌, ◌-◌, ◌%◌, Bool, true, false, not, ◌&&◌, ◌||◌, Option, none, some, List, [], ◌∷◌, keep,
  length, get_elem?, Text, codes, lower, includes, trim, trim_start, trim_end, is_empty, ◌==◌,
  if◌then◌else◌,
}

-- A block type in the list, and whether its row is hidden.
pub record Choice : Type 0 where
  pub id : Text
  pub label : Text
  pub type_ : Text
  pub hidden : Bool

-- `descendant` is `aria-activedescendant`; `nothing_found` is whether the note of an empty list shows.
pub record Inserter : Type 0 where
  pub open_ : Bool
  pub search : Text
  pub choices : List Choice
  pub active_index : ℕ
  pub descendant : Option Text
  pub nothing_found : Bool

-- What the menu does to the page.
pub data Effect : Type 0 where
  no_effect focus_trigger focus_search : Effect
  clicks : Text → Effect

abbrev pub is_visible : Choice → Bool
is_visible c = not c.hidden

unfoldable pub visible_options : List Choice → List Choice
visible_options choices = keep is_visible choices

unfoldable pub matches : Text → Choice → Bool
matches q c = is_empty q || includes q (lower c.label) || includes q (lower c.type_)

unfoldable pub hide_others : Text → List Choice → List Choice
hide_others q [] = []
hide_others q (c ∷ cs) = record c { hidden = not (matches q c) } ∷ hide_others q cs

abbrev pub id_of : Option Choice → Option Text
id_of none = none
id_of (some c) = some c.id

unfoldable pub highlight : Inserter → Inserter
highlight m = record m { descendant = id_of (get_elem? (visible_options m.choices) m.active_index) }

abbrev pub is_none_left : List Choice → Bool
is_none_left [] = true
is_none_left (_ ∷ _) = false

unfoldable pub filter : Inserter → Inserter
filter m =
    let choices = hide_others (lower (trim m.search)) m.choices in
    highlight (record m {
      choices = choices;
      nothing_found = is_none_left (visible_options choices);
      active_index = 0;
    })

unfoldable pub open_menu : Inserter → Inserter
open_menu m = filter (record m { open_ = true; search = [] })

unfoldable pub close_menu : Inserter → Inserter
close_menu m = record m { open_ = false }

unfoldable pub toggle : Inserter → Inserter × Effect
toggle m = if m.open_ then (close_menu m, focus_trigger) else (open_menu m, focus_search)

-- `(this.activeIndex + delta + count) % count`, of the two steps
abbrev pub index_after : Bool → ℕ → ℕ → ℕ
index_after true active count = (active + 1 + count) % count
index_after false active count = (active + count - 1) % count

unfoldable pub move : Bool → Inserter → Inserter
move down m =
    let count = length (visible_options m.choices) in
    if count == 0
    then m
    else highlight (record m { active_index = index_after down m.active_index count })

-- A click of an option closes the menu and leaves the focus to the page.
unfoldable pub press_enter : Inserter → Inserter × Effect
press_enter m = elim (get_elem? (visible_options m.choices) m.active_index) [
  | none ↦ (m, no_effect)
  | some c ↦ (close_menu m, clicks c.id)
]

-- What happens: the trigger is clicked, the search is typed into, a key is pressed in it; there is a
-- click outside; or `/` is pressed in the page, where the last argument is whether in a field.
pub data InserterEvent : Type 0 where
  toggles arrow_down arrow_up enter escape click_outside : InserterEvent
  types : Text → InserterEvent
  slash : Bool → InserterEvent

unfoldable pub on_slash : Bool → Inserter → Inserter × Effect
on_slash in_field m = if m.open_ || in_field then (m, no_effect) else (open_menu m, focus_search)

unfoldable pub step : InserterEvent → Inserter → Inserter × Effect
step toggles m = toggle m
step arrow_down m = (move true m, no_effect)
step arrow_up m = (move false m, no_effect)
step enter m = press_enter m
step escape m = (close_menu m, focus_trigger)
step click_outside m = (close_menu m, no_effect)
step (types s) m = (filter (record m { search = s }), no_effect)
step (slash in_field) m = on_slash in_field m
