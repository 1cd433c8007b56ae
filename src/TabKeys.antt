-- ===== src/TabKeys.antt =====
-- assets/js/tab_keys.js: the arrow keys of a tab list.
pub mod Ring
use kiln_cms.Prelude.{ℕ, ◌+◌, ◌-◌, ◌%◌, Bool, true, false, ◌||◌, Option, none, some, if◌then◌else◌}

pub data TabKey : Type 0 where
  arrow_right arrow_left home end_key other_key : TabKey

pub record Modifiers : Type 0 where
  pub alt : Bool
  pub ctrl : Bool
  pub meta : Bool
  pub shift : Bool

-- The object that is indexed by the key; the index is one of the tabs.
unfoldable pub next_tab : ℕ → ℕ → TabKey → Option ℕ
next_tab count i arrow_right = some ((i + 1) % count)
next_tab count i arrow_left = some ((i + count - 1) % count)
next_tab count i home = some 0
next_tab count i end_key = some (count - 1)
next_tab count i other_key = none

-- The listener: the tab that is focused and clicked, or none where the press is let through. The
-- focus is on a tab, or elsewhere.
unfoldable pub on_keydown : Modifiers → ℕ → Option ℕ → TabKey → Option ℕ
unfolding next_tab
on_keydown m count focus key =
    if m.alt || m.ctrl || m.meta || m.shift
    then none
    else elim focus [ none ↦ none | some i ↦ next_tab count i key ]
