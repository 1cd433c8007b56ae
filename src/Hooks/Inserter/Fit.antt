-- ===== src/Hooks/Inserter/Fit.antt =====
-- The menu of blocks stays fit.
use kiln_cms.Prelude.{
  ℕ, zero, suc, ◌≡◌, ◌<◌, ◌≤◌, ◌⊎◌, inl, inr, refl, sym, ap, subst, ◌∙◌, Bool, true, false, not,
  none, some, some-injective, List, [], ◌∷◌, length, get_elem?, Text, lower, trim, All, Bool-cases,
  Option-cases, arith, if◌then◌else◌, if-either, ◌==◌, ◌||◌,
}
use kiln_cms.Hooks.Inserter.{
  Choice, Inserter, no_effect, clicks, visible_options, matches, hide_others, id_of, highlight,
  filter, open_menu, close_menu, toggle, index_after, move, press_enter, InserterEvent, toggles,
  arrow_down, arrow_up, enter, escape, click_outside, types, slash, on_slash, step,
}

-- The rows that are hidden are those that the search does not match.
abbrev pub IsFiltered : Text → List Choice → Type 0
IsFiltered query choices =
    All (λ (c : Choice). c.hidden ≡ not (matches (lower (trim query)) c)) choices

-- An open menu: the rows are filtered; an option is active where one is visible; and it is the one that
-- assistive technology is told of.
pub record IsFit (m : Inserter) : Type 0 where
  pub filtered : IsFiltered m.search m.choices
  pub in_range :
      (length (visible_options m.choices) ≡ 0)
      ⊎ (m.active_index < length (visible_options m.choices))
  pub told : m.descendant ≡ id_of (get_elem? (visible_options m.choices) m.active_index)

abbrev pub IsFitOpen : Inserter → Type 0
IsFitOpen m = m.open_ ≡ true → IsFit m

hide_others-IsFiltered :
    (query : Text) (cs : List Choice) → IsFiltered query (hide_others (lower (trim query)) cs)
unfolding hide_others matches
hide_others-IsFiltered query [] = tt
hide_others-IsFiltered query (c ∷ cs) = (refl, hide_others-IsFiltered query cs)

zero-in_range : (n : ℕ) → (n ≡ 0) ⊎ (0 < n)
zero-in_range n = ground arith

filter-IsFit : (m : Inserter) → IsFit (filter m)
unfolding filter highlight
filter-IsFit m = record {
  filtered = hide_others-IsFiltered m.search m.choices;
  in_range = zero-in_range _;
  told = refl;
}

index_after-in_range :
    (down : Bool) (active count : ℕ) → (count == 0) ≡ false → index_after down active count < count
index_after-in_range true active count e = ground (arith, e)
index_after-in_range false active count e = ground (arith, e)

move-IsFit : (down : Bool) (m : Inserter) → IsFit m → IsFit (move down m)
unfolding move highlight
move-IsFit down m fit = elim (Bool-cases (length (visible_options m.choices) == 0)) [
  | inl empty ↦ rw empty fit
  | inr some_ ↦ rw some_ (record {
    filtered = fit.filtered;
    in_range = inr (index_after-in_range down m.active_index _ some_);
    told = refl;
  })
]

open_menu-IsFit : (m : Inserter) → IsFit (open_menu m)
unfolding open_menu
open_menu-IsFit m = filter-IsFit (record m { open_ = true; search = [] })

filter-open : (m : Inserter) → (filter m).open_ ≡ m.open_
unfolding filter highlight
filter-open m = refl

move-open : (down : Bool) (m : Inserter) → (move down m).open_ ≡ m.open_
unfolding move highlight
move-open down m =
    if-either (λ (n : Inserter). n.open_ ≡ m.open_) (length (visible_options m.choices) == 0) _ _
      refl refl

press_enter-IsFitOpen : (m : Inserter) → IsFitOpen m → IsFitOpen (press_enter m).0
unfolding press_enter close_menu
press_enter-IsFitOpen m fit =
    elim (Option-cases (get_elem? (visible_options m.choices) m.active_index)) [
      | inl nothing ↦ rw (nothing, press_enter) fit
      | inr (c, there) ↦ rw (there, press_enter) (λ e. ground (arith, e))
    ]

step-IsFitOpen : (e : InserterEvent) (m : Inserter) → IsFitOpen m → IsFitOpen (step e m).0
unfolding step toggle on_slash close_menu open_menu
step-IsFitOpen toggles m fit = elim (Bool-cases m.open_) [
  | inl open_ ↦ rw open_ (λ e. ground (arith, e))
  | inr closed ↦ rw closed (λ e. open_menu-IsFit m)
]
step-IsFitOpen arrow_down m fit = λ e. move-IsFit true m (fit (sym (move-open true m) ∙ e))
step-IsFitOpen arrow_up m fit = λ e. move-IsFit false m (fit (sym (move-open false m) ∙ e))
step-IsFitOpen enter m fit = press_enter-IsFitOpen m fit
step-IsFitOpen escape m fit = λ e. ground (arith, e)
step-IsFitOpen click_outside m fit = λ e. ground (arith, e)
step-IsFitOpen (types s) m fit = λ e. filter-IsFit (record m { search = s })
step-IsFitOpen (slash in_field) m fit = elim (Bool-cases (m.open_ || in_field)) [
  | inl kept ↦ rw kept fit
  | inr opens ↦ rw opens (λ e. open_menu-IsFit m)
]

-- The menu after some events.
unfoldable pub run_inserter : List InserterEvent → Inserter → Inserter
run_inserter [] m = m
run_inserter (e ∷ es) m = run_inserter es (step e m).0

run_inserter-IsFitOpen :
    (es : List InserterEvent) (m : Inserter) → IsFitOpen m → IsFitOpen (run_inserter es m)
unfolding run_inserter
run_inserter-IsFitOpen [] m fit = fit
run_inserter-IsFitOpen (e ∷ es) m fit =
    run_inserter-IsFitOpen es (step e m).0 (step-IsFitOpen e m fit)

visible_options-shown :
    (c : Choice) (cs : List Choice)
    → c.hidden ≡ false
    → visible_options (c ∷ cs) ≡ c ∷ visible_options cs
unfolding visible_options
visible_options-shown c cs e =
    ap (λ b. if not b then c ∷ visible_options cs else visible_options cs) e

visible_options-hidden :
    (c : Choice) (cs : List Choice)
    → c.hidden ≡ true
    → visible_options (c ∷ cs) ≡ visible_options cs
unfolding visible_options
visible_options-hidden c cs e =
    ap (λ b. if not b then c ∷ visible_options cs else visible_options cs) e

not-true : (b : Bool) → not b ≡ false → b ≡ true
not-true true e = refl
not-true false e = sym e

-- A visible option is matched.
visible-matches :
    (query : Text) (cs : List Choice) (i : ℕ) {c : Choice}
    → IsFiltered query cs
    → get_elem? (visible_options cs) i ≡ some c
    → matches (lower (trim query)) c ≡ true
visible-matches query [] i h e = unfold visible_options in absurd (ground (arith, e))
visible-matches query (d ∷ cs) i {c} (p, h) e = elim (Bool-cases d.hidden) [
  | inl hidden ↦
      visible-matches query cs i h
        (ap (λ l. get_elem? l i) (sym (visible_options-hidden d cs hidden)) ∙ e)
  | inr shown ↦
      first-matches i (ap (λ l. get_elem? l i) (sym (visible_options-shown d cs shown)) ∙ e)
        (not-true (matches (lower (trim query)) d) (sym p ∙ shown))
        (λ j f. visible-matches query cs j h f)
]
  where
    first-matches :
        (j : ℕ)
        → get_elem? (d ∷ visible_options cs) j ≡ some c
        → matches (lower (trim query)) d ≡ true
        → ((k : ℕ)
            → get_elem? (visible_options cs) k ≡ some c
            → matches (lower (trim query)) c ≡ true)
        → matches (lower (trim query)) c ≡ true
    first-matches zero f hit later =
        subst (λ (x : Choice). matches (lower (trim query)) x ≡ true) (some-injective d c f) hit
    first-matches (suc j) f hit later = later j f

get_elem-in_range :
    (xs : List Choice) (i : ℕ)
    → get_elem? xs i ≡ none
    → (length xs ≡ 0) ⊎ (i < length xs)
    → length xs ≡ 0
get_elem-in_range [] i e h = refl
get_elem-in_range (x ∷ xs) zero e h = ground (arith, e)
get_elem-in_range (x ∷ xs) (suc i) e h = absurd (ground (arith, h, get_elem-short xs i e))
  where
    get_elem-short : (ys : List Choice) (j : ℕ) → get_elem? ys j ≡ none → length ys ≤ j
    get_elem-short [] j e = omega arith
    get_elem-short (y ∷ ys) zero e = ground (arith, e)
    get_elem-short (y ∷ ys) (suc j) e = omega (arith, get_elem-short ys j e)

-- What Enter does in an open menu: nothing, where nothing is visible; else it clicks the option that
-- assistive technology is told of, which the search matches, and closes the menu.
abbrev pub Picks : Inserter → Type 0
Picks m =
    ((length (visible_options m.choices) ≡ 0) × (step enter m ≡ (m, no_effect)))
    ⊎ ((c : Choice) × (step enter m ≡ (close_menu m, clicks c.id))
        × (m.descendant ≡ some c.id)
        × (matches (lower (trim m.search)) c ≡ true))

IsFit-Picks : (m : Inserter) → IsFit m → Picks m
unfolding step press_enter
IsFit-Picks m fit = elim (Option-cases (get_elem? (visible_options m.choices) m.active_index)) [
  | inl nothing ↦ inl (
    get_elem-in_range (visible_options m.choices) m.active_index nothing fit.in_range,
    rw (nothing, press_enter) refl,
  )
  | inr (c, there) ↦ inr (
    c,
    rw (there, press_enter) refl,
    fit.told ∙ ap id_of there,
    visible-matches m.search m.choices m.active_index fit.filtered there,
  )
]

-- However the menu of blocks is opened, searched and moved in, once it was closed: while it is open,
-- Enter clicks the option that assistive technology was told of, one that the search matches, and the
-- menu is closed; or, where no option is visible, it does nothing.
pub run_inserter-Picks :
    (es : List InserterEvent) (start : Inserter)
    → start.open_ ≡ false
    → (run_inserter es start).open_ ≡ true
    → Picks (run_inserter es start)
run_inserter-Picks es start closed open_ =
    IsFit-Picks (run_inserter es start)
      (run_inserter-IsFitOpen es start (λ e. ground (arith, closed, e)) open_)
