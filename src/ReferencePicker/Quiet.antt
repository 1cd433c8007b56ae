-- ===== src/ReferencePicker/Quiet.antt =====
-- What a removal leaves noted through events that do not touch it.
use kiln_cms.Prelude.{
  ℕ, ◌≡◌, ◌≢◌, refl, Bool, true, false, Option, none, some, List, [], ◌∷◌, ◌++◌, All, All-append,
  any, leb, ◌==◌, ◌∙◌, sym, ap, subst, Bool-cases, Option-cases, inl, inr, arith,
}
use kiln_cms.ReferencePicker.{
  Page, Picker, Pending, remove, Focus, stays, an_option, more, new_submit, new_cancel, elsewhere,
  remove_button, Key, arrow_down, arrow_up, enter, escape, tab, other_key, is_open, key, move_down,
  move_up, note_focus, highlight, restore_focus, updated, after_remove, expire, PickerEvent,
  pressed, typed, clicked, patched, expired, step, run,
}

-- What a patch does to the focus.
abbrev pub focus_of : PickerEvent → Picker → List Focus
focus_of (patched q) s = (updated q s).1 ∷ []
focus_of (pressed _) s = []
focus_of typed s = []
focus_of (clicked _ _) s = []
focus_of (expired _) s = []

-- The foci of the patches, one after another.
unfoldable pub foci : List PickerEvent → Page × Picker → List Focus
foci [] s = []
foci (e ∷ es) s = focus_of e s.1 ++ foci es (step e s)

-- No click is noted, and the number of rows stays.
abbrev pub IsQuiet : ℕ → PickerEvent → Type 0
IsQuiet rows (patched q) = q.rows ≡ rows
IsQuiet rows (pressed _) = Unit
IsQuiet rows typed = Unit
IsQuiet rows (expired _) = Unit
IsQuiet rows (clicked more _) = Unit
IsQuiet rows (clicked elsewhere _) = Unit
IsQuiet rows (clicked an_option _) = ⊥
IsQuiet rows (clicked new_submit _) = ⊥
IsQuiet rows (clicked new_cancel _) = ⊥
IsQuiet rows (clicked (remove_button _) _) = ⊥

-- The timer goes off when it is due, or later.
abbrev pub rings : ℕ → PickerEvent → Bool
rings due (expired time) = leb due time
rings due (patched _) = false
rings due (pressed _) = false
rings due typed = false
rings due (clicked _ _) = false

abbrev pub Notes : Type 0
Notes = Option Pending × Option ℕ

abbrev pub notes : Picker → Notes
notes s = (s.pending, s.pending_timer)

move_down-notes : (p : Page) (s : Picker) → notes (move_down p s) ≡ notes s
unfolding move_down highlight
move_down-notes p s = elim (Bool-cases (p.options == 0)) [
  | inl none_there ↦ rw none_there refl
  | inr some_there ↦ rw some_there refl
]

move_up-notes : (p : Page) (s : Picker) → notes (move_up p s) ≡ notes s
unfolding move_up highlight
move_up-notes p s = elim (Bool-cases (p.options == 0)) [
  | inl none_there ↦ rw none_there refl
  | inr some_there ↦ rw some_there refl
]

key-notes : (p : Page) (k : Key) (s : Picker) → notes (key p k s).0 ≡ notes s
unfolding key
key-notes p arrow_down s = elim (Bool-cases (is_open p)) [
  | inl open_ ↦ rw open_ (move_down-notes p s)
  | inr shut ↦ rw shut refl
]
key-notes p arrow_up s = elim (Bool-cases (is_open p)) [
  | inl open_ ↦ rw open_ (move_up-notes p s)
  | inr shut ↦ rw shut refl
]
key-notes p enter s = refl
key-notes p escape s = elim (Bool-cases (is_open p)) [
  | inl open_ ↦ rw open_ refl
  | inr shut ↦ rw shut refl
]
key-notes p tab s = elim (Bool-cases (is_open p)) [
  | inl open_ ↦ rw open_ refl
  | inr shut ↦ rw shut refl
]
key-notes p other_key s = refl

-- The removal waits to be rendered.
abbrev pub Waits : ℕ → ℕ → ℕ → Notes → Type 0
Waits count i due n = (n.0 ≡ some (remove count i)) × (n.1 ≡ some due)

pub highlight-notes : (p : Page) (s : Picker) → notes (highlight p s) ≡ notes s
unfolding highlight
highlight-notes p s = refl

pub restore_focus-none :
    (p : Page) (s : Picker)
    → s.pending ≡ none
    → ((restore_focus p s).0.pending ≡ none) × ((restore_focus p s).1 ≡ stays)
unfolding restore_focus
restore_focus-none p s e = (rw (e, restore_focus) e, rw (e, restore_focus) refl)

restore_focus-Waits :
    (p : Page) (s : Picker) {count i due : ℕ}
    → Waits count i due (notes s)
    → p.rows ≡ count
    → Waits count i due (notes (restore_focus p s).0) × ((restore_focus p s).1 ≡ stays)
unfolding restore_focus
restore_focus-Waits p s {count} {i} {due} (e, set) same =
    let test : (p.rows == count) ≡ true = ground arith in
    (
      (rw (e, restore_focus, test) e, rw (e, restore_focus, test) set),
      rw (e, restore_focus, test) refl,
    )

pub restore_focus-moves :
    (p : Page) (s : Picker) {count i : ℕ}
    → s.pending ≡ some (remove count i)
    → p.rows ≢ count
    → ((restore_focus p s).0.pending ≡ none) × ((restore_focus p s).1 ≡ after_remove p i)
unfolding restore_focus
restore_focus-moves p s {count} {i} e new =
    let test : (p.rows == count) ≡ false = ground arith in
    (rw (e, restore_focus, test) refl, rw (e, restore_focus, test) refl)

expire-rings :
    (time : ℕ) (s : Picker) (due : ℕ)
    → s.pending_timer ≡ some due
    → leb due time ≡ true
    → (expire time s).pending ≡ none
unfolding expire
expire-rings time s due set rung = rw (set, expire, rung) refl

expire-early :
    (time : ℕ) (s : Picker) {count i due : ℕ}
    → Waits count i due (notes s)
    → leb due time ≡ false
    → Waits count i due (notes (expire time s))
unfolding expire
expire-early time s (e, set) early = (rw (set, expire, early) e, rw (set, expire, early) set)

expire-none : (time : ℕ) (s : Picker) → s.pending ≡ none → (expire time s).pending ≡ none
unfolding expire
expire-none time s e = elim (Option-cases s.pending_timer) [
  | inl off ↦ rw (off, expire) e
  | inr (due, set) ↦ elim (Bool-cases (leb due time)) [
    | inl rung ↦ rw (set, expire, rung) refl
    | inr early ↦ rw (set, expire, early) e
  ]
]

-- Before the timer goes off, a quiet event leaves the note and the focus as they are.
step-Waits :
    (e : PickerEvent) (p : Page) (s : Picker) {count i due : ℕ}
    → IsQuiet count e
    → rings due e ≡ false
    → Waits count i due (notes s)
    → Waits count i due (notes (step e (p, s)).1) × All (λ f. f ≡ stays) (focus_of e s)
unfolding step note_focus updated
step-Waits (patched q) p s quiet early w =
    let (waits, still) =
      restore_focus-Waits q (highlight q s) (subst (Waits _ _ _) (sym (highlight-notes q s)) w)
        quiet in
    (waits, (still, tt))
step-Waits (pressed k) p s quiet early w = (subst (Waits _ _ _) (sym (key-notes p k s)) w, tt)
step-Waits typed p s quiet early w = (w, tt)
step-Waits (expired time) p s quiet early w = (expire-early time s w early, tt)
step-Waits (clicked more _) p s quiet early w = (w, tt)
step-Waits (clicked elsewhere _) p s quiet early w = (w, tt)
step-Waits (clicked an_option _) p s quiet early w = absurd quiet
step-Waits (clicked new_submit _) p s quiet early w = absurd quiet
step-Waits (clicked new_cancel _) p s quiet early w = absurd quiet
step-Waits (clicked (remove_button _) _) p s quiet early w = absurd quiet

-- Without a note, a quiet event leaves the focus alone.
step-none :
    (e : PickerEvent) (p : Page) (s : Picker) (count : ℕ)
    → IsQuiet count e
    → s.pending ≡ none
    → ((step e (p, s)).1.pending ≡ none) × All (λ f. f ≡ stays) (focus_of e s)
unfolding step note_focus updated
step-none (patched q) p s count quiet h =
    let (cleared, still) =
      restore_focus-none q (highlight q s) (ap (λ n. n.0) (highlight-notes q s) ∙ h) in
    (cleared, (still, tt))
step-none (pressed k) p s count quiet h = (ap (λ n. n.0) (key-notes p k s) ∙ h, tt)
step-none typed p s count quiet h = (h, tt)
step-none (expired time) p s count quiet h = (expire-none time s h, tt)
step-none (clicked more _) p s count quiet h = (h, tt)
step-none (clicked elsewhere _) p s count quiet h = (h, tt)
step-none (clicked an_option _) p s count quiet h = absurd quiet
step-none (clicked new_submit _) p s count quiet h = absurd quiet
step-none (clicked new_cancel _) p s count quiet h = absurd quiet
step-none (clicked (remove_button _) _) p s count quiet h = absurd quiet

-- The event at which the timer goes off leaves nothing noted.
step-rings :
    (e : PickerEvent) (p : Page) (s : Picker) {count i due : ℕ}
    → rings due e ≡ true
    → Waits count i due (notes s)
    → ((step e (p, s)).1.pending ≡ none) × All (λ f. f ≡ stays) (focus_of e s)
unfolding step
step-rings (expired time) p s {count} {i} {due} rung w = (expire-rings time s due w.1 rung, tt)
step-rings (patched _) p s rung w = ground (arith, rung)
step-rings (pressed _) p s rung w = ground (arith, rung)
step-rings typed p s rung w = ground (arith, rung)
step-rings (clicked _ _) p s rung w = ground (arith, rung)

run-none :
    (es : List PickerEvent) (s : Page × Picker) (count : ℕ)
    → All (IsQuiet count) es
    → s.1.pending ≡ none
    → ((run es s).1.pending ≡ none) × All (λ f. f ≡ stays) (foci es s)
unfolding run foci
run-none [] s count quiet h = (h, tt)
run-none (e ∷ es) (p, s) count quiet h =
    let (h', still) = step-none e p s count quiet.0 h in
    let (end, rest) = run-none es (step e (p, s)) count quiet.1 h' in
    (end, All-append (λ f. f ≡ stays) (focus_of e s) (foci es (step e (p, s))) still rest)

-- The note after quiet events: gone where the timer has gone off, kept where it has not.
abbrev pub After : Bool → ℕ → ℕ → ℕ → Notes → Type 0
After true count i due n = n.0 ≡ none
After false count i due n = Waits count i due n

pub run-quiet :
    (es : List PickerEvent) (s : Page × Picker) {count i due : ℕ}
    → All (IsQuiet count) es
    → Waits count i due (notes s.1)
    → After (any (rings due) es) count i due (notes (run es s).1) × All (λ f. f ≡ stays) (foci es s)
unfolding run foci
run-quiet [] s quiet w = (w, tt)
run-quiet (e ∷ es) (p, s) {count} {i} {due} quiet w = elim (Bool-cases (rings due e)) [
  | inl rung ↦
      let (gone, still) = step-rings e p s rung w in
      let (end, rest) = run-none es (step e (p, s)) count quiet.1 gone in
      (rw rung end, All-append (λ f. f ≡ stays) (focus_of e s) (foci es (step e (p, s))) still rest)
  | inr early ↦
      let (w', still) = step-Waits e p s quiet.0 early w in
      let (end, rest) = run-quiet es (step e (p, s)) quiet.1 w' in
      (
        rw early end,
        All-append (λ f. f ≡ stays) (focus_of e s) (foci es (step e (p, s))) still rest,
      )
]
