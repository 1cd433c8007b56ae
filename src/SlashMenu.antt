-- ===== src/SlashMenu.antt =====
-- The slash menu of assets/js/rich_text.js (`SlashMenu`): commands offered while a paragraph reads
-- "/query". The editor's selection is what the menu is given; applying a command is the editor's.
pub mod Fit
use kiln_cms.Prelude.{
  ℕ, zero, suc, ◌+◌, ◌-◌, ◌%◌, Bool, true, false, not, ◌&&◌, Option, none, some, List, [], ◌∷◌,
  ◌++◌, keep, all, length, get_elem?, Text, is_space, lower, includes, ◌==◌, if◌then◌else◌,
}

pub record Command : Type 0 where
  pub label : Text
  pub keywords : Text
  pub insert : Bool  -- a block insert, rather than a transform of the prose

-- The caret: whether the selection is empty and in a paragraph, the text before it in its block,
-- and its position in the document.
pub record Caret : Type 0 where
  pub empty : Bool
  pub paragraph : Bool
  pub before : Text
  pub pos : ℕ

pub record SlashMenu : Type 0 where
  pub open_ : Bool
  pub items : List Command
  pub active : ℕ
  pub range : ℕ × ℕ
  pub expanded : Bool  -- `aria-expanded` on the editor
  pub descendant : Option ℕ  -- the option that `aria-activedescendant` names

unfoldable pub closed_menu : SlashMenu
closed_menu = record {
  open_ = false;
  items = [];
  active = 0;
  range = (0, 0);
  expanded = false;
  descendant = none;
}

-- The pattern ^\/(\S*)$: the query
unfoldable pub slash_query : Text → Option Text
slash_query [] = none
slash_query (c ∷ s) = if c == b'/' && all (λ x. not (is_space x)) s then some s else none

abbrev pub offers : Text → Command → Bool
offers [] cmd = true
offers (c ∷ q) cmd = includes (c ∷ q) (lower (cmd.label ++ b' ' ∷ cmd.keywords))

unfoldable pub hide : SlashMenu → SlashMenu
hide m = if m.open_ then record m { open_ = false; expanded = false; descendant = none } else m

-- `render` names the active option, where there is one.
unfoldable pub render : SlashMenu → SlashMenu
render m = elim m.items [ [] ↦ m | _ ∷ _ ↦ record m { descendant = some m.active } ]

unfoldable pub show_menu : SlashMenu → SlashMenu
unfolding render
show_menu m = record (render (record m { open_ = true })) { expanded = true }

-- `update`, with the commands that this editor can offer
unfoldable pub offer : Caret → Text → List Command → SlashMenu → SlashMenu
unfolding show_menu
offer caret query [] m = hide m
offer caret query (cmd ∷ items) m = show_menu (record m {
  range = (caret.pos - suc (length query), caret.pos);
  items = cmd ∷ items;
  active = 0;
})

unfoldable pub update : List Command → Caret → SlashMenu → SlashMenu
update commands caret m =
    if not caret.empty
    then hide m
    else if not caret.paragraph
    then hide m
    else elim (slash_query caret.before) [
      | none ↦ hide m
      | some query ↦ offer caret query (keep (offers (lower query)) commands) m
    ]

-- `move(1)` and `move(-1)`; the menu is open, so there are items
unfoldable pub move_down : SlashMenu → SlashMenu
unfolding render
move_down m = render (record m { active = (m.active + 1 + length m.items) % length m.items })

unfoldable pub move_up : SlashMenu → SlashMenu
unfolding render
move_up m = render (record m { active = (m.active + length m.items - 1) % length m.items })

-- `choose`: the command, and the range of the text "/query" that is deleted before it is applied
unfoldable pub choose : ℕ → SlashMenu → SlashMenu × Option (Command × ℕ × ℕ)
unfolding hide
choose i m = elim (get_elem? m.items i) [
  | none ↦ (m, none)
  | some cmd ↦ (hide m, some (cmd, m.range.0, m.range.1))
]

pub data Press : Type 0 where
  arrow_down arrow_up enter tab escape other_press : Press

unfoldable pub on_press : Press → SlashMenu → SlashMenu × Option (Command × ℕ × ℕ)
on_press arrow_down m = if m.open_ then (move_down m, none) else (m, none)
on_press arrow_up m = if m.open_ then (move_up m, none) else (m, none)
on_press enter m = if m.open_ then choose m.active m else (m, none)
on_press tab m = if m.open_ then choose m.active m else (m, none)
on_press escape m = if m.open_ then (hide m, none) else (m, none)
on_press other_press m = (m, none)

-- The selection moves, a key is pressed, or an option is clicked.
pub data MenuEvent : Type 0 where
  caret_moved : Caret → MenuEvent
  pressed : Press → MenuEvent
  clicked : ℕ → MenuEvent

unfoldable pub on_event : List Command → MenuEvent → SlashMenu → SlashMenu
on_event commands (caret_moved caret) m = update commands caret m
on_event commands (pressed p) m = (on_press p m).0
on_event commands (clicked i) m = (choose i m).0

unfoldable pub run_menu : List Command → List MenuEvent → SlashMenu → SlashMenu
run_menu commands [] m = m
run_menu commands (e ∷ es) m = run_menu commands es (on_event commands e m)
