-- ===== src/ReferencePicker/Options.antt =====
-- The highlighted option of the search box.
use kiln_cms.Prelude.{
  ℕ, zero, suc, ◌+◌, ◌-◌, ◌%◌, ◌<◌, ◌≡◌, refl, true, false, Option, none, some, List, [], ◌∷◌, leb,
  ◌==◌, inl, inr, Bool-cases, if-either, ap, ◌∙◌, subst, sym, Option-cases, suc_wraps_round,
  pred_wraps, arith,
}
use kiln_cms.ReferencePicker.{
  Page, Picker, Key, Focus, Effect, Handled, Target, an_option, more, new_submit, new_cancel,
  elsewhere, remove_button, arrow_down, arrow_up, enter, escape, tab, other_key, is_open, clamp,
  highlight, down_from, up_from, move_down, move_up, key, note_focus, restore_focus, updated,
  PickerEvent, pressed, typed, clicked, patched, expired, expire, step, run, pick, remove, cancel,
}

-- The active option is one of so many.
abbrev pub InRange : ℕ → Option ℕ → Type 0
InRange count none = Unit
InRange count (some i) = i < count

clamp-InRange : (n : ℕ) (o : Option ℕ) → InRange n (clamp n o)
clamp-InRange n none = tt
clamp-InRange zero (some i) = tt
clamp-InRange (suc n) (some i) = elim (Bool-cases (leb (suc n) i)) [
  | inl above ↦ rw above (omega arith)
  | inr below ↦ rw below (ground arith)
]

highlight-InRange : (p : Page) (s : Picker) → InRange p.options (highlight p s).active
unfolding highlight
highlight-InRange p s = clamp-InRange p.options s.active

move_down-InRange :
    (p : Page) (s : Picker) → InRange p.options s.active → InRange p.options (move_down p s).active
unfolding move_down
move_down-InRange p s h =
    if-either (λ (t : Picker). InRange p.options t.active) (p.options == 0) _ _ h
      (highlight-InRange p _)

move_up-InRange :
    (p : Page) (s : Picker) → InRange p.options s.active → InRange p.options (move_up p s).active
unfolding move_up
move_up-InRange p s h =
    if-either (λ (t : Picker). InRange p.options t.active) (p.options == 0) _ _ h
      (highlight-InRange p _)

key-InRange :
    (p : Page) (k : Key) (s : Picker)
    → InRange p.options s.active
    → InRange p.options (key p k s).0.active
unfolding key
key-InRange p arrow_down s h =
    if-either (λ (r : Picker × Effect × Handled). InRange p.options r.0.active) (is_open p) _ _
      (move_down-InRange p s h) h
key-InRange p arrow_up s h =
    if-either (λ (r : Picker × Effect × Handled). InRange p.options r.0.active) (is_open p) _ _
      (move_up-InRange p s h) h
key-InRange p enter s h = h
key-InRange p escape s h =
    if-either (λ (r : Picker × Effect × Handled). InRange p.options r.0.active) (is_open p) _ _ tt h
key-InRange p tab s h =
    if-either (λ (r : Picker × Effect × Handled). InRange p.options r.0.active) (is_open p) _ _ h h
key-InRange p other_key s h = h

restore_focus-active : (p : Page) (s : Picker) → (restore_focus p s).0.active ≡ s.active
unfolding restore_focus
restore_focus-active p s = elim (Option-cases s.pending) [
  | inl nothing_noted ↦ rw (nothing_noted, restore_focus) refl
  | inr (cancel, e) ↦ rw (e, restore_focus) refl
  | inr (pick count, e) ↦
      rw (e, restore_focus)
        (if-either (λ (r : Picker × Focus). r.0.active ≡ s.active) (p.rows == count) _ _ refl refl)
  | inr (remove count i, e) ↦
      rw (e, restore_focus)
        (if-either (λ (r : Picker × Focus). r.0.active ≡ s.active) (p.rows == count) _ _ refl refl)
]

note_focus-InRange :
    (p : Page) (target : Target) (time : ℕ) (s : Picker)
    → InRange p.options s.active
    → InRange p.options (note_focus p target time s).active
unfolding note_focus
note_focus-InRange p an_option time s h = tt
note_focus-InRange p more time s h = h
note_focus-InRange p new_submit time s h = h
note_focus-InRange p new_cancel time s h = h
note_focus-InRange p elsewhere time s h = h
note_focus-InRange p (remove_button i) time s h = h

expire-active : (time : ℕ) (s : Picker) → (expire time s).active ≡ s.active
unfolding expire
expire-active time s = elim (Option-cases s.pending_timer) [
  | inl off ↦ rw (off, expire) refl
  | inr (due, set) ↦ elim (Bool-cases (leb due time)) [
    | inl rings ↦ rw (set, expire, rings) refl
    | inr early ↦ rw (set, expire, early) refl
  ]
]

step-InRange :
    (e : PickerEvent) (p : Page) (s : Picker)
    → InRange p.options s.active
    → InRange (step e (p, s)).0.options (step e (p, s)).1.active
unfolding step updated
step-InRange (pressed k) p s h = key-InRange p k s h
step-InRange typed p s h = tt
step-InRange (clicked target time) p s h = note_focus-InRange p target time s h
step-InRange (patched q) p s h =
    subst (InRange q.options) (sym (restore_focus-active q (highlight q s))) (highlight-InRange q s)
step-InRange (expired time) p s h = subst (InRange p.options) (sym (expire-active time s)) h

-- Whatever is pressed, typed and clicked, and however the server patches the list, the highlighted
-- option, where there is one, is among those that the page shows.
pub run-InRange :
    (es : List PickerEvent) (p : Page) (s : Picker)
    → InRange p.options s.active
    → InRange (run es (p, s)).0.options (run es (p, s)).1.active
unfolding run
run-InRange [] p s h = h
run-InRange (e ∷ es) p s h =
    run-InRange es (step e (p, s)).0 (step e (p, s)).1 (step-InRange e p s h)

clamp-below : (n j : ℕ) → j < n → clamp n (some j) ≡ some j
clamp-below zero j h = ground arith
clamp-below (suc n) j h = ground arith

highlight-below :
    (p : Page) (s : Picker) {j : ℕ}
    → s.active ≡ some j
    → j < p.options
    → (highlight p s).active ≡ some j
unfolding highlight
highlight-below p s {j} e h = rw e (clamp-below p.options j h)

arrow_down-active :
    (p : Page) (s : Picker) {i : ℕ}
    → is_open p ≡ true
    → s.active ≡ some i
    → i < p.options
    → (key p arrow_down s).0.active ≡ some ((i + 1 + p.options) % p.options)
unfolding key move_down
arrow_down-active p s {i} opens e h =
    let some_options : (p.options == 0) ≡ false = ground arith in
    rw (opens, key, some_options, move_down)
      (highlight-below p (record s { active = some (down_from p.options s.active) })
        (ap (λ a. some (down_from p.options a)) e) (ground (arith, suc_wraps_round i p.options h)))

arrow_up-active :
    (p : Page) (s : Picker) {i : ℕ}
    → is_open p ≡ true
    → s.active ≡ some i
    → i < p.options
    → (key p arrow_up s).0.active ≡ some ((i + p.options - 1) % p.options)
unfolding key move_up
arrow_up-active p s {i} opens e h =
    let some_options : (p.options == 0) ≡ false = ground arith in
    rw (opens, key, some_options, move_up)
      (highlight-below p (record s { active = some (up_from p.options s.active) })
        (ap (λ a. some (up_from p.options a)) e) (ground (arith, pred_wraps i p.options h)))

down_up : (i n : ℕ) → i < n → ((i + 1 + n) % n + n - 1) % n ≡ i
down_up i n h =
    pred_wraps ((i + 1 + n) % n) n (ground (arith, suc_wraps_round i n h))
    ∙ ground (arith, suc_wraps_round i n h)

up_down : (i n : ℕ) → i < n → ((i + n - 1) % n + 1 + n) % n ≡ i
up_down i n h =
    suc_wraps_round ((i + n - 1) % n) n (ground (arith, pred_wraps i n h))
    ∙ ground (arith, pred_wraps i n h)

-- In an open list with a highlighted option i, Down and Up highlight an option of the list and take
-- back each other, at the ends too.
key-ring :
    (p : Page) (s : Picker) {i : ℕ}
    → is_open p ≡ true
    → s.active ≡ some i
    → i < p.options
    → (d : ℕ) × (u : ℕ) × ((key p arrow_down s).0.active ≡ some d)
      × ((key p arrow_up s).0.active ≡ some u)
      × (d < p.options)
      × (u < p.options)
      × ((key p arrow_up (key p arrow_down s).0).0.active ≡ some i)
      × ((key p arrow_down (key p arrow_up s).0).0.active ≡ some i)
key-ring p s {i} opens e h =
    let d = (i + 1 + p.options) % p.options in
    let u = (i + p.options - 1) % p.options in
    let down : d < p.options = ground (arith, suc_wraps_round i p.options h) in
    let up : u < p.options = ground (arith, pred_wraps i p.options h) in
    let goes_down = arrow_down-active p s opens e h in
    let goes_up = arrow_up-active p s opens e h in
    (
      d,
      u,
      goes_down,
      goes_up,
      down,
      up,
      arrow_up-active p (key p arrow_down s).0 opens goes_down down
          ∙ ap some (down_up i p.options h),
      arrow_down-active p (key p arrow_up s).0 opens goes_up up ∙ ap some (up_down i p.options h),
    )
