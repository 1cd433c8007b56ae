-- ===== src/Tests/Keys.antt =====
-- Keyboard handling: runs of focus_trap.js, tab_keys.js and rich_text.js's slash menu.
use kiln_cms.Prelude.{
  ℕ, ◌⊎◌, ◌≡◌, refl, Bool, true, false, ◌||◌, some, none, List, [], ◌∷◌, ◌==◌, ltb, codes, arith,
}
use kiln_cms.FocusTrap.{Dom, Trap, innermost, escape, panel_phase}
use kiln_cms.FocusTrap.Escape.{AtMostOne, escape-AtMostOne, IsCalled}
use kiln_cms.TabKeys.{Modifiers, on_keydown, arrow_right}
use kiln_cms.TabKeys.Ring.{IsBare, Moves, on_keydown-Moves}
use kiln_cms.SlashMenu.{
  Command, SlashMenu, MenuEvent, caret_moved, pressed, closed_menu, run_menu, arrow_down, arrow_up,
  on_press, on_event, update, slash_query, offer, move_down, move_up,
}
use kiln_cms.SlashMenu.Fit.{IsFit, run_menu-IsFit}

-- A page whose root, 0, contains the other elements, which are siblings in the order of their
-- numbers.
abbrev page : Dom
page = record {
  Element = ℕ;
  contains = λ a b. a == b || a == 0;
  follows = λ a b. ltb a b;
  contains_refl = λ a. ground arith;
  tree_total = λ a b. ground arith;
  tree_trans = λ a b c p q. ground arith;
  tree_antisymm = λ a b p q. ground arith;
}

abbrev dialog : ℕ → Bool → Trap page
dialog n on = record { id = n; el = n; connected = on; closes = true }

abbrev dialogs : List (Trap page)
dialogs = dialog 2 true ∷ dialog 0 true ∷ dialog 7 false ∷ dialog 5 true ∷ []

innermost_run : innermost page dialogs ≡ some (dialog 5 true)
unfolding innermost
innermost_run = refl

abbrev siblings : List (Trap page)
siblings = dialog 2 true ∷ dialog 7 false ∷ dialog 5 true ∷ []

escape_run : escape page siblings [] 9 false ≡ dialog 5 true ∷ []
unfolding escape innermost
escape_run = refl

escape-AtMostOne_example :
    AtMostOne page
      (λ t.
        (panel_phase page [] ≡ some t)
        ⊎ ((panel_phase page [] ≡ none) × IsCalled page siblings 9 false t))
      (escape page siblings [] 9 false)
escape-AtMostOne_example = escape-AtMostOne page siblings [] 9 false

abbrev bare : Modifiers
bare = record { alt = false; ctrl = false; meta = false; shift = false }

on_keydown-Moves_example :
    (IsBare bare × Moves 3 2 arrow_right (on_keydown bare 3 (some 2) arrow_right))
    ⊎ ((¬ IsBare bare) × (on_keydown bare 3 (some 2) arrow_right ≡ none))
on_keydown-Moves_example = on_keydown-Moves bare 3 2 arrow_right (omega arith)

abbrev commands : List Command
commands =
    record { label = codes "Heading 1"; keywords = codes "h1 title"; insert = false }
    ∷ record { label = codes "Heading 2"; keywords = codes "h2"; insert = false }
    ∷ record { label = codes "Gallery"; keywords = codes "images"; insert = true }
    ∷ []

abbrev typing : List MenuEvent
typing =
    caret_moved (record { empty = true; paragraph = true; before = codes "/Head"; pos = 25 })
    ∷ pressed arrow_down
    ∷ pressed arrow_down
    ∷ pressed arrow_up
    ∷ []

typed_run : (run_menu commands typing closed_menu).descendant ≡ some 1
unfolding run_menu on_event on_press update slash_query offer move_down move_up
typed_run = refl

closed_menu-IsFit : IsFit closed_menu
unfolding closed_menu
closed_menu-IsFit = ground arith

run_menu-IsFit_example : IsFit (run_menu commands typing closed_menu)
run_menu-IsFit_example = run_menu-IsFit commands typing closed_menu closed_menu-IsFit

abbrev opened : SlashMenu
opened = run_menu commands typing closed_menu
