-- ===== src/SlashMenu/Fit.antt =====
-- What holds of the slash menu at all times.
use kiln_cms.Prelude.{
  ℕ, zero, suc, ◌<◌, ◌≡◌, ◌∙◌, ap, refl, Bool, true, false, not, Option, none, some, List, [], ◌∷◌,
  keep, length, Bool-cases, inl, inr, Option-cases, get_elem?, if◌then◌else◌, Text, lower,
  suc_wraps_round, pred_wraps, arith,
}
use kiln_cms.SlashMenu.{
  Command, Caret, SlashMenu, hide, offer, update, move_down, move_up, choose, render, Press,
  on_press, arrow_down, arrow_up, enter, tab, escape, other_press, MenuEvent, caret_moved, pressed,
  clicked, on_event, run_menu, slash_query, offers,
}

-- An open menu has an active option, which assistive technology is told of; a closed one tells of
-- none.
pub record IsFit (m : SlashMenu) : Type 0 where
  pub in_range : m.open_ ≡ true → m.active < length m.items
  pub told : m.open_ ≡ true → m.descendant ≡ some m.active
  pub untold : m.open_ ≡ false → m.descendant ≡ none
  pub mirrored : m.expanded ≡ m.open_

hide-IsFit : (m : SlashMenu) → IsFit m → IsFit (hide m)
unfolding hide
hide-IsFit m h = ground arith

offer-IsFit :
    (caret : Caret) (query : Text) (items : List Command) (m : SlashMenu)
    → IsFit m
    → IsFit (offer caret query items m)
unfolding offer
offer-IsFit caret query [] m h = hide-IsFit m h
offer-IsFit caret query (cmd ∷ items) m h = ground arith

choose-IsFit : (i : ℕ) (m : SlashMenu) → IsFit m → IsFit (choose i m).0
unfolding choose
choose-IsFit i m h = ground arith

update-IsFit :
    (commands : List Command) (caret : Caret) (m : SlashMenu)
    → IsFit m
    → IsFit (update commands caret m)
unfolding update
update-IsFit commands caret m h =
    let hidden : IsFit (hide m) = hide-IsFit m h in
    elim (Bool-cases (not caret.empty)) [
      | inl e ↦ rw e hidden
      | inr e ↦ elim (Bool-cases (not caret.paragraph)) [
        | inl e' ↦ rw (e, e') hidden
        | inr e' ↦ elim (Option-cases (slash_query caret.before)) [
          | inl e'' ↦ rw (e, e', e'') hidden
          | inr (query, e'') ↦
              rw (e, e', e'') (offer-IsFit caret query (keep (offers (lower query)) commands) m h)
        ]
      ]
    ]

render_items :
    (items : List Command) (a : ℕ) (r : ℕ × ℕ) (told : Option ℕ)
    → a < length items
    → IsFit (
        render (record {
          open_ = true;
          items = items;
          active = a;
          range = r;
          expanded = true;
          descendant = told;
        }))
unfolding render
render_items [] a r told h = ground arith
render_items (_ ∷ _) a r told h = ground arith

render-IsFit :
    (m : SlashMenu) (a : ℕ)
    → IsFit m
    → m.open_ ≡ true
    → a < length m.items
    → IsFit (render (record m { active = a }))
render-IsFit m a fit o h =
    let x : m.expanded ≡ true = ground arith in
    rw (o, x) (render_items m.items a m.range m.descendant h)

when_open :
    (open_ : Bool) (acts : SlashMenu × Option (Command × ℕ × ℕ)) (m : SlashMenu)
    → (open_ ≡ true → IsFit acts.0)
    → IsFit m
    → IsFit (if open_ then acts else (m, none)).0
when_open true _ _ f h = f refl
when_open false _ _ f h = h

move_down-IsFit : (m : SlashMenu) → IsFit m → m.open_ ≡ true → IsFit (move_down m)
unfolding move_down
move_down-IsFit m h o =
    render-IsFit m _ h o (ground (arith, suc_wraps_round m.active (length m.items) (h.in_range o)))

move_up-IsFit : (m : SlashMenu) → IsFit m → m.open_ ≡ true → IsFit (move_up m)
unfolding move_up
move_up-IsFit m h o =
    render-IsFit m _ h o (ground (arith, pred_wraps m.active (length m.items) (h.in_range o)))

on_press-IsFit : (p : Press) (m : SlashMenu) → IsFit m → IsFit (on_press p m).0
unfolding on_press
on_press-IsFit arrow_down m h = when_open m.open_ _ m (move_down-IsFit m h) h
on_press-IsFit arrow_up m h = when_open m.open_ _ m (move_up-IsFit m h) h
on_press-IsFit enter m h = when_open m.open_ _ m (λ o. choose-IsFit m.active m h) h
on_press-IsFit tab m h = when_open m.open_ _ m (λ o. choose-IsFit m.active m h) h
on_press-IsFit escape m h = when_open m.open_ _ m (λ o. hide-IsFit m h) h
on_press-IsFit other_press m h = h

on_event-IsFit :
    (commands : List Command) (e : MenuEvent) (m : SlashMenu)
    → IsFit m
    → IsFit (on_event commands e m)
unfolding on_event
on_event-IsFit commands (caret_moved caret) m h = update-IsFit commands caret m h
on_event-IsFit commands (pressed p) m h = on_press-IsFit p m h
on_event-IsFit commands (clicked i) m h = choose-IsFit i m h

-- Whatever happens to it, a fit menu stays fit: open, its active option is one of its items and the
-- one that assistive technology is told of; closed, no option is told of.
pub run_menu-IsFit :
    (commands : List Command) (es : List MenuEvent) (m : SlashMenu)
    → IsFit m
    → IsFit (run_menu commands es m)
unfolding run_menu
run_menu-IsFit commands [] m h = h
run_menu-IsFit commands (e ∷ es) m h =
    run_menu-IsFit commands es (on_event commands e m) (on_event-IsFit commands e m h)

get_elem_below :
    (xs : List Command) (i : ℕ) → i < length xs → (x : Command) × (get_elem? xs i ≡ some x)
get_elem_below [] i h = ground arith
get_elem_below (x ∷ xs) zero h = (x, refl)
get_elem_below (x ∷ xs) (suc i) h = get_elem_below xs i (omega arith)

choose_item :
    (i : ℕ) (m : SlashMenu) (cmd : Command)
    → get_elem? m.items i ≡ some cmd
    → choose i m ≡ (hide m, some (cmd, m.range.0, m.range.1))
unfolding choose
choose_item i m cmd e = rw (e, choose) refl

hide_shut : (m : SlashMenu) → (hide m).open_ ≡ false
unfolding hide
hide_shut m = ground arith

-- In a fit menu that is open, Enter and Tab both apply the active command to the range of the query
-- and close the menu; in one that is closed they do nothing.
on_press-chooses :
    (m : SlashMenu)
    → IsFit m
    → (on_press tab m ≡ on_press enter m)
      × (m.open_ ≡ false → on_press enter m ≡ (m, none))
      × (m.open_ ≡ true
          → (cmd : Command) × (get_elem? m.items m.active ≡ some cmd)
            × ((on_press enter m).1 ≡ some (cmd, m.range.0, m.range.1))
            × ((on_press enter m).0.open_ ≡ false))
unfolding on_press
on_press-chooses m h = (
  refl,
  (λ shut. rw shut refl),
  λ o.
      let (cmd, e) = get_elem_below m.items m.active (h.in_range o) in
      let acts : on_press enter m ≡ choose m.active m = rw o refl in
      let chosen : on_press enter m ≡ (hide m, some (cmd, m.range.0, m.range.1)) =
        acts ∙ choose_item m.active m cmd e in
      (cmd, e, ap (λ r. r.1) chosen, ap (λ r. r.0.open_) chosen ∙ hide_shut m),
)
