-- ===== src/FocusTrap.antt =====
-- assets/js/focus_trap.js: focus and Escape for dialogs. The document is a parameter: which element
-- contains which, and which follows which, as the DOM defines them.
pub mod Escape
use kiln_cms.Prelude.{
  ℕ, zero, suc, ◌-◌, Bool, true, false, not, ◌&&◌, ◌||◌, ◌≡◌, ◌⊎◌, Option, none, some, List, [],
  ◌∷◌, ◌==◌, keep, any, length, if◌then◌else◌,
}

-- The tree order of the DOM: an element stands before those that it contains and those that follow.
pub record Dom : Type 1 where
  pub Element : Type 0
  pub contains : Element → Element → Bool
  pub follows : Element → Element → Bool  -- the second follows the first
  pub contains_refl : (a : Element) → contains a a ≡ true
  pub tree_total :
      (a b : Element)
      → ((contains a b || follows a b) ≡ true) ⊎ ((contains b a || follows b a) ≡ true)
  pub tree_trans :
      (a b c : Element)
      → (contains a b || follows a b) ≡ true
      → (contains b c || follows b c) ≡ true
      → (contains a c || follows a c) ≡ true
  pub tree_antisymm :
      (a b : Element)
      → (contains a b || follows a b) ≡ true
      → (contains b a || follows b a) ≡ true
      → a ≡ b

-- What a press of Tab does: the browser's own step, or focus on an item, or on the panel.
pub data TabMove : Type 0 where
  browser panel : TabMove
  item : ℕ → TabMove

-- Where the focus is: on an item, elsewhere in the panel, or outside.
pub data FocusAt : Type 0 where
  on_item : ℕ → FocusAt
  within outside : FocusAt

abbrev pub is_item : ℕ → FocusAt → Bool
is_item i (on_item j) = i == j
is_item i _ = false

abbrev pub is_outside : FocusAt → Bool
is_outside outside = true
is_outside _ = false

-- The Tab half of `_onKeydown`, by the number of focusable items.
unfoldable pub tab : ℕ → Bool → FocusAt → TabMove
tab zero shift active = panel
tab (suc n) true active = if is_item 0 active || is_outside active then item n else browser
tab (suc n) false active = if is_item n active || is_outside active then item 0 else browser

module _ (dom : Dom) where
  open dom use {Element, contains, follows}

  pub record Trap : Type 0 where
    pub id : ℕ
    pub el : Element
    pub connected : Bool
    pub closes : Bool  -- `data-close-event` is set

  -- One step of the `reduce` in `innermost`.
  unfoldable pub deeper : Option Trap → Trap → Option Trap
  deeper none trap = some trap
  deeper (some deepest) trap =
      if contains deepest.el trap.el
      then some trap
      else if contains trap.el deepest.el
      then some deepest
      else if follows deepest.el trap.el
      then some trap
      else some deepest

  unfoldable pub deepest_from : Option Trap → List Trap → Option Trap
  deepest_from found [] = found
  deepest_from found (t ∷ ts) = deepest_from (deeper found t) ts

  unfoldable pub innermost : List Trap → Option Trap
  unfolding deepest_from deeper
  innermost traps = deepest_from none (keep (λ t. t.connected) traps)

  abbrev pub is_trap : Option Trap → Trap → Bool
  is_trap none t = false
  is_trap (some i) t = i.id == t.id

  -- `_onDocumentKeydown` of one trap: whether it pushes its close event.
  unfoldable pub on_document : List Trap → Element → Bool → Trap → Bool
  on_document traps active prevented t =
      not prevented
      && is_trap (innermost traps) t
      && (not (any (λ s. contains s.el active) traps) && t.closes)

  -- The listeners on the document, in the order in which they were added; the traps that close.
  unfoldable pub document_phase : List Trap → Element → Bool → List Trap → List Trap
  document_phase traps active prevented [] = []
  document_phase traps active prevented (t ∷ ts) =
      let closed = t ∷ document_phase traps active true ts in
      let passed = document_phase traps active prevented ts in
      if on_document traps active prevented t then closed else passed

  -- The listeners on the panels that the press bubbles through, innermost first; one that closes
  -- its dialog stops the press.
  unfoldable pub panel_phase : List Trap → Option Trap
  panel_phase [] = none
  panel_phase (t ∷ ts) = if t.closes then some t else panel_phase ts

  -- A press of Escape with the focus on `active`: the panels that contain it, then the document.
  unfoldable pub escape : List Trap → List Trap → Element → Bool → List Trap
  unfolding panel_phase document_phase on_document
  escape traps path active prevented = elim (panel_phase path) [
    | some t ↦ t ∷ []
    | none ↦ document_phase traps active prevented traps
  ]
