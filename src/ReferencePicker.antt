-- ===== src/ReferencePicker.antt =====
-- assets/js/reference_picker.js: the keys of the picker's search box, and where the focus goes after
-- a pick or a removal. The DOM that the server renders is a page, read at each event.
pub mod Options
pub mod Quiet
pub mod Refocus
use kiln_cms.Prelude.{
  ℕ, zero, suc, ◌+◌, ◌-◌, ◌%◌, Bool, true, false, not, ◌&&◌, ◌||◌, Option, none, some, List, [],
  ◌∷◌, ltb, leb, ◌==◌, min, is_some, if◌then◌else◌,
}

-- How many options and rows there are, how many of the rows can be removed, and whether there is a
-- search box, and it is open.
pub record Page : Type 0 where
  pub options : ℕ
  pub rows : ℕ
  pub removes : ℕ
  pub has_search : Bool
  pub expanded : Bool

pub data Pending : Type 0 where
  pick : ℕ → Pending  -- the rows there were
  remove : ℕ → ℕ → Pending  -- the rows there were, and the index of the row, where it has one
  cancel : Pending

-- `active` is none for -1; `descendant` is the option that `aria-activedescendant` names.
pub record Picker : Type 0 where
  pub active : Option ℕ
  pub descendant : Option ℕ
  pub pending : Option Pending
  pub pending_timer : Option ℕ

abbrev pub is_open : Page → Bool
is_open p = p.has_search && p.expanded

unfoldable pub mounted : Picker
mounted = record { active = none; descendant = none; pending = none; pending_timer = none }

-- `if (this.active >= options.length) this.active = options.length - 1`
abbrev pub clamp : ℕ → Option ℕ → Option ℕ
clamp count none = none
clamp zero (some i) = none
clamp (suc count) (some i) = if leb (suc count) i then some count else some i

unfoldable pub highlight : Page → Picker → Picker
highlight p s =
    let active = clamp p.options s.active in
    record s { active = active; descendant = if p.has_search then active else s.descendant }

-- `move(1)` and `move(-1)`
abbrev pub down_from : ℕ → Option ℕ → ℕ
down_from count none = 0
down_from count (some i) = (i + 1 + count) % count

abbrev pub up_from : ℕ → Option ℕ → ℕ
up_from count none = count - 1
up_from count (some i) = (i + count - 1) % count

unfoldable pub move_down : Page → Picker → Picker
move_down p s =
    if p.options == 0
    then s
    else highlight p (record s { active = some (down_from p.options s.active) })

unfoldable pub move_up : Page → Picker → Picker
move_up p s =
    if p.options == 0
    then s
    else highlight p (record s { active = some (up_from p.options s.active) })

pub data Key : Type 0 where
  arrow_down arrow_up enter escape tab other_key : Key

-- What a key does beside moving the highlight.
pub data Effect : Type 0 where
  nothing ref_open ref_close : Effect
  click : ℕ → Effect

-- What becomes of the press itself.
pub record Handled : Type 0 where
  pub prevented : Bool
  pub stopped : Bool

-- The active option, where the list has it: `this.options()[this.active]`
abbrev pub option_at : ℕ → Option ℕ → Option ℕ
option_at count none = none
option_at count (some i) = if ltb i count then some i else none

unfoldable pub pick_active : Page → Picker → Effect
pick_active p s =
    if is_open p
    then elim (option_at p.options s.active) [ none ↦ nothing | some i ↦ click i ]
    else nothing

abbrev pub let_through : Handled
let_through = record { prevented = false; stopped = false }

abbrev pub prevented_only : Handled
prevented_only = record { prevented = true; stopped = false }

-- `key`, with the focus in the search box
unfoldable pub key : Page → Key → Picker → Picker × Effect × Handled
key p arrow_down s =
    if is_open p then (move_down p s, nothing, prevented_only) else (s, ref_open, prevented_only)
key p arrow_up s =
    if is_open p then (move_up p s, nothing, prevented_only) else (s, nothing, prevented_only)
key p enter s = (s, pick_active p s, prevented_only)
key p escape s =
    if is_open p
    then (record s { active = none }, ref_close, record { prevented = true; stopped = true })
    else (s, nothing, let_through)
key p tab s = if is_open p then (s, ref_close, let_through) else (s, nothing, let_through)
key p other_key s = (s, nothing, let_through)

-- What a click is on; "more results" is an option, too.
pub data Target : Type 0 where
  an_option more new_submit new_cancel elsewhere : Target
  remove_button : ℕ → Target

abbrev pub note : Pending → ℕ → Picker → Picker
note noted time s = record s { pending = some noted; pending_timer = some (time + 3000) }

unfoldable pub note_focus : Page → Target → ℕ → Picker → Picker
note_focus p an_option time s = note (pick p.rows) time (record s { active = none })
note_focus p new_submit time s = note (pick p.rows) time s
note_focus p new_cancel time s = note cancel time s
note_focus p (remove_button i) time s = note (remove p.rows i) time s
note_focus p more time s = s
note_focus p elsewhere time s = s

-- Where the focus is put; `new_button` is the "Add new" button, or the search box without it.
pub data Focus : Type 0 where
  stays new_button search_box : Focus
  remove_of : ℕ → Focus

-- `(input || removes[removes.length - 1])?.focus()`
abbrev pub after_pick : Page → Focus
after_pick p =
    if p.has_search then search_box else if p.removes == 0 then stays else remove_of (p.removes - 1)

-- `(removes[Math.min(pending.index, removes.length - 1)] || input)?.focus()`
abbrev pub after_remove : Page → ℕ → Focus
after_remove p i =
    if p.removes == 0
    then (if p.has_search then search_box else stays)
    else remove_of (min i (p.removes - 1))

unfoldable pub restore_focus : Page → Picker → Picker × Focus
restore_focus p s = elim s.pending [
  | none ↦ (s, stays)
  | some cancel ↦ (record s { pending = none }, new_button)
  | some (pick count) ↦
      if p.rows == count then (s, stays) else (record s { pending = none }, after_pick p)
  | some (remove count i) ↦
      if p.rows == count then (s, stays) else (record s { pending = none }, after_remove p i)
]

-- `updated`, after the server's patch, less the sorter
unfoldable pub updated : Page → Picker → Picker × Focus
updated p s = restore_focus p (highlight p s)

-- The timer of a note goes off, and clears what is noted then.
unfoldable pub expire : ℕ → Picker → Picker
expire time s = elim s.pending_timer [
  | none ↦ s
  | some due ↦ if leb due time then record s { pending = none; pending_timer = none } else s
]

-- What happens to the hook; the timer of a note goes off when it is due, or later.
pub data PickerEvent : Type 0 where
  pressed : Key → PickerEvent
  typed : PickerEvent
  clicked : Target → ℕ → PickerEvent
  patched : Page → PickerEvent
  expired : ℕ → PickerEvent

-- The page as it is rendered, and the hook.
unfoldable pub step : PickerEvent → Page × Picker → Page × Picker
step (pressed k) (p, s) = (p, (key p k s).0)
step typed (p, s) = (p, record s { active = none })
step (clicked target time) (p, s) = (p, note_focus p target time s)
step (patched q) (p, s) = (q, (updated q s).0)
step (expired time) (p, s) = (p, expire time s)

unfoldable pub run : List PickerEvent → Page × Picker → Page × Picker
run [] s = s
run (e ∷ es) s = run es (step e s)
