-- ===== src/ReferencePicker/Refocus.antt =====
-- Where the focus goes after a removal.
use kiln_cms.Prelude.{ℕ, ◌<◌, ◌≡◌, Bool, true, false}
use kiln_cms.ReferencePicker.{Page, Focus, stays, search_box, new_button, remove_of, after_remove}

-- The focus is put on something that the page has, and left alone only where it has neither.
abbrev pub IsThere : Page → Focus → Type 0
IsThere p (remove_of j) = j < p.removes
IsThere p search_box = p.has_search ≡ true
IsThere p stays = (p.removes ≡ 0) × (p.has_search ≡ false)
IsThere p new_button = Unit

-- The patch that changes the rows, after the timer has gone off, or before it.
abbrev pub Refocuses : Bool → Page → ℕ → Focus → Type 0
Refocuses true q i f = f ≡ stays
Refocuses false q i f = (f ≡ after_remove q i) × IsThere q f
