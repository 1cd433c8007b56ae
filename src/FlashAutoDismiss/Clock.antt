-- ===== src/FlashAutoDismiss/Clock.antt =====
-- When a flash is closed.
use kiln_cms.Prelude.{
  ℕ, ◌+◌, ◌≤◌, ◌≡◌, refl, sym, Bool, true, false, ◌||◌, ◌&&◌, none, some, List, [], ◌∷◌, All,
  All-mono, Text, text_eq, text_eq_iff, if◌then◌else◌, Bool-cases, Option-cases, ◌∙◌, subst, inl,
  inr, arith,
}
use kiln_cms.FlashAutoDismiss.{
  Flash, FlashEvent, enter, leave, focus_in, focus_out, updated, fires, destroyed, stop, start,
  mounted, step, after, dismisses, dismiss_ms,
}

abbrev pub time_of : FlashEvent → ℕ
time_of (enter t) = t
time_of (leave _ t) = t
time_of (focus_in t) = t
time_of (focus_out _ _ t) = t
time_of (updated _ _ t) = t
time_of (fires t) = t
time_of (destroyed t) = t

-- The clock does not go back: each event is no earlier than those before it, nor than mounting.
abbrev pub IsOrdered : ℕ → List FlashEvent → Type 0
IsOrdered mount [] = Unit
IsOrdered mount (e ∷ es) =
    (mount ≤ time_of e) × All (λ d. time_of d ≤ time_of e) es × IsOrdered mount es

-- Whether the pointer is over the flash, by the last event that tells.
abbrev pub pointer_over : List FlashEvent → Bool
pointer_over [] = false
pointer_over (enter _ ∷ es) = true
pointer_over (leave _ _ ∷ es) = false
pointer_over (_ ∷ es) = pointer_over es

abbrev pub focus_within : List FlashEvent → Bool
focus_within [] = false
focus_within (focus_in _ ∷ es) = true
focus_within (focus_out inside _ _ ∷ es) = inside && focus_within es
focus_within (_ ∷ es) = focus_within es

-- The message that is shown, of the one it was mounted with.
abbrev pub message_of : Text → List FlashEvent → Text
message_of first [] = first
message_of first (updated m _ _ ∷ es) = m
message_of first (_ ∷ es) = message_of first es

-- When somebody came or went, or the message changed.
abbrev pub disturbances : Text → List FlashEvent → List ℕ
disturbances first [] = []
disturbances first (enter t ∷ es) = t ∷ disturbances first es
disturbances first (leave _ t ∷ es) = t ∷ disturbances first es
disturbances first (focus_in t ∷ es) = t ∷ disturbances first es
disturbances first (focus_out inside _ t ∷ es) =
    let rest = disturbances first es in if inside then rest else t ∷ rest
disturbances first (updated m _ t ∷ es) =
    let rest = disturbances first es in if text_eq m (message_of first es) then rest else t ∷ rest
disturbances first (_ ∷ es) = disturbances first es

disturbances-before :
    (first : Text) (t : ℕ) (es : List FlashEvent)
    → All (λ d. time_of d ≤ t) es
    → All (λ r. r ≤ t) (disturbances first es)
disturbances-before first t [] h = tt
disturbances-before first t (enter _ ∷ es) (p, h) = (p, disturbances-before first t es h)
disturbances-before first t (leave _ _ ∷ es) (p, h) = (p, disturbances-before first t es h)
disturbances-before first t (focus_in _ ∷ es) (p, h) = (p, disturbances-before first t es h)
disturbances-before first t (focus_out true _ _ ∷ es) (p, h) = disturbances-before first t es h
disturbances-before first t (focus_out false _ _ ∷ es) (p, h) =
    (p, disturbances-before first t es h)
disturbances-before first t (updated m _ _ ∷ es) (p, h) =
    elim (Bool-cases (text_eq m (message_of first es))) [
      | inl same ↦ rw same (disturbances-before first t es h)
      | inr new ↦ rw new (p, disturbances-before first t es h)
    ]
disturbances-before first t (fires _ ∷ es) (p, h) = disturbances-before first t es h
disturbances-before first t (destroyed _ ∷ es) (p, h) = disturbances-before first t es h

-- The timer that the browser has is the one that the variable names.
abbrev InStep : Flash → Type 0
InStep f = (d : ℕ) → f.pending ≡ some d → f.timer ≡ some d

-- Either no timer is left, or one is set for five seconds from now and nobody is there.
record IsRestarted (t : ℕ) (f g : Flash) : Type 0 where
  pointer : g.hovered ≡ f.hovered
  focus : g.focused ≡ f.focused
  shown : g.message ≡ f.message
  timed :
      (d : ℕ)
      → g.pending ≡ some d
      → (g.timer ≡ some d) × (d ≡ t + dismiss_ms) × (f.hovered ≡ false) × (f.focused ≡ false)

stop-pending : (f : Flash) → InStep f → (stop f).pending ≡ none
unfolding stop
stop-pending f h = elim (Option-cases f.pending) [
  | inl no_timer ↦ ground arith
  | inr (d, e) ↦ ground (arith, h d e)
]

stop_keeps :
    (f : Flash)
    → ((stop f).hovered ≡ f.hovered)
      × ((stop f).focused ≡ f.focused)
      × ((stop f).message ≡ f.message)
unfolding stop
stop_keeps f = (refl, refl, refl)

stop-IsRestarted : (t : ℕ) (f : Flash) → InStep f → IsRestarted t f (stop f)
stop-IsRestarted t f h =
    let (p, q, r) = stop_keeps f in
    record { pointer = p; focus = q; shown = r; timed = λ d e. ground (arith, e, stop-pending f h) }

start-IsRestarted :
    (hidden : Bool) (t : ℕ) (f : Flash) → InStep f → IsRestarted t f (start hidden t f)
unfolding start
start-IsRestarted hidden t f h =
    elim (Bool-cases ((stop f).hovered || (stop f).focused || hidden)) [
      | inl someone ↦ rw (someone, start) (stop-IsRestarted t f h)
      | inr nobody ↦
          rw (nobody, start)
            (record {
              pointer = (stop_keeps f).0;
              focus = (stop_keeps f).1;
              shown = (stop_keeps f).2;
              timed = λ d e. ground (arith, e, nobody, stop_keeps f);
            })
    ]

-- What the variables say of the events.
pub record IsTold (first : Text) (mount : ℕ) (es : List FlashEvent) (f : Flash) : Type 0 where
  pub pointer : f.hovered ≡ pointer_over es
  pub focus : f.focused ≡ focus_within es
  pub shown : f.message ≡ message_of first es
  pub in_step : InStep f
  pub alone : (d : ℕ) → f.pending ≡ some d → (pointer_over es ≡ false) × (focus_within es ≡ false)
  pub rested :
      (d : ℕ) → f.pending ≡ some d → All (λ r. r + dismiss_ms ≤ d) (mount ∷ disturbances first es)

restarted-IsTold :
    (first : Text) (mount t : ℕ) (es : List FlashEvent) (f g : Flash)
    → IsRestarted t f g
    → f.hovered ≡ pointer_over es
    → f.focused ≡ focus_within es
    → f.message ≡ message_of first es
    → All (λ r. r ≤ t) (mount ∷ disturbances first es)
    → IsTold first mount es g
restarted-IsTold first mount t es f g h p q m before = record {
  pointer = h.pointer ∙ p;
  focus = h.focus ∙ q;
  shown = h.shown ∙ m;
  in_step = λ d e. (h.timed d e).0;
  alone = λ d e. ground (arith, h.timed d e, p, q);
  rested = λ d e.
      All-mono (λ r. r ≤ t) (λ r. r + dismiss_ms ≤ d) (λ r le. ground (arith, h.timed d e, le))
        (mount ∷ disturbances first es) before;
}

updated-same :
    (m : Text) (hidden : Bool) (t : ℕ) (f : Flash)
    → text_eq m f.message ≡ true
    → f ≡ step (updated m hidden t) f
unfolding step
updated-same m hidden t f e = rw (e, step) refl

updated-new :
    (m : Text) (hidden : Bool) (t : ℕ) (f : Flash)
    → text_eq m f.message ≡ false
    → start hidden t (record f { message = m }) ≡ step (updated m hidden t) f
unfolding step
updated-new m hidden t f e = rw (e, step) refl

step-IsTold :
    (first : Text) (mount : ℕ) (e : FlashEvent) (es : List FlashEvent) (f : Flash)
    → IsOrdered mount (e ∷ es)
    → IsTold first mount es f
    → IsTold first mount (e ∷ es) (step e f)
unfolding step
step-IsTold first mount (enter t) es f (le, before, _) h =
    restarted-IsTold first mount t (enter t ∷ es) _ _
      (stop-IsRestarted t (record f { hovered = true }) h.in_step) refl h.focus h.shown
      (le, (omega arith, disturbances-before first t es before))
step-IsTold first mount (leave hidden t) es f (le, before, _) h =
    restarted-IsTold first mount t (leave hidden t ∷ es) _ _
      (start-IsRestarted hidden t (record f { hovered = false }) h.in_step) refl h.focus h.shown
      (le, (omega arith, disturbances-before first t es before))
step-IsTold first mount (focus_in t) es f (le, before, _) h =
    restarted-IsTold first mount t (focus_in t ∷ es) _ _
      (stop-IsRestarted t (record f { focused = true }) h.in_step) h.pointer refl h.shown
      (le, (omega arith, disturbances-before first t es before))
step-IsTold first mount (focus_out true hidden t) es f (le, before, _) h = record {
  pointer = h.pointer;
  focus = h.focus;
  shown = h.shown;
  in_step = h.in_step;
  alone = h.alone;
  rested = h.rested;
}
step-IsTold first mount (focus_out false hidden t) es f (le, before, _) h =
    restarted-IsTold first mount t (focus_out false hidden t ∷ es) _ _
      (start-IsRestarted hidden t (record f { focused = false }) h.in_step) h.pointer refl h.shown
      (le, (omega arith, disturbances-before first t es before))
step-IsTold first mount (updated m hidden t) es f (le, before, _) h =
    elim (Bool-cases (text_eq m f.message)) [
      | inl same ↦
          let same' : text_eq m (message_of first es) ≡ true =
            subst (λ l. text_eq m l ≡ true) h.shown same in
          subst (IsTold first mount (updated m hidden t ∷ es)) (updated-same m hidden t f same)
            (record {
              pointer = h.pointer;
              focus = h.focus;
              shown = sym ((text_eq_iff m f.message).0 same);
              in_step = h.in_step;
              alone = h.alone;
              rested = λ d e. rw same' (h.rested d e);
            })
      | inr new ↦
          subst (IsTold first mount (updated m hidden t ∷ es)) (updated-new m hidden t f new) (
            restarted-IsTold first mount t (updated m hidden t ∷ es) _ _
              (start-IsRestarted hidden t (record f { message = m }) h.in_step) h.pointer h.focus
              refl
              (le, disturbances-before first t (updated m hidden t ∷ es) (omega arith, before)))
    ]
step-IsTold first mount (fires t) es f (le, before, _) h = record {
  pointer = h.pointer;
  focus = h.focus;
  shown = h.shown;
  in_step = λ d e. ground (arith, e);
  alone = λ d e. ground (arith, e);
  rested = λ d e. absurd (ground (arith, e));
}
step-IsTold first mount (destroyed t) es f (le, before, _) h =
    restarted-IsTold first mount t (destroyed t ∷ es) _ _ (stop-IsRestarted t f h.in_step) h.pointer
      h.focus h.shown (le, disturbances-before first t es before)

after-IsTold :
    (first : Text) (hidden : Bool) (mount : ℕ) (es : List FlashEvent)
    → IsOrdered mount es
    → IsTold first mount es (after (mounted first hidden mount) es)
unfolding after mounted
after-IsTold first hidden mount [] h =
    restarted-IsTold first mount mount [] _ _
      (start-IsRestarted hidden mount
        (record { hovered = false; focused = false; message = first; timer = none; pending = none })
        (λ d e. ground (arith, e)))
      refl refl refl (omega arith, tt)
after-IsTold first hidden mount (e ∷ es) h =
    step-IsTold first mount e es _ h (after-IsTold first hidden mount es h.2)

-- While the clock does not go back, a flash is closed by its timer only when the pointer is not over
-- it and the focus is not in it, and at least five seconds after it was mounted, after its message
-- last changed, and after anyone last came to it or left it.
pub dismisses-IsLate :
    (first : Text) (hidden : Bool) (mount : ℕ) (es : List FlashEvent) (time : ℕ)
    → IsOrdered mount es
    → dismisses time (after (mounted first hidden mount) es) ≡ true
    → (pointer_over es ≡ false)
      × (focus_within es ≡ false)
      × All (λ r. r + 5000 ≤ time) (mount ∷ disturbances first es)
unfolding dismisses
dismisses-IsLate first hidden mount es time h e =
    let told = after-IsTold first hidden mount es h in
    elim (Option-cases (after (mounted first hidden mount) es).pending) [
      | inl no_timer ↦ ground (arith, rw (no_timer, dismisses) at e)
      | inr (d, set) ↦
          let due : d ≤ time = ground (arith, rw (set, dismisses) at e) in
          (
            (told.alone d set).0,
            (told.alone d set).1,
            All-mono (λ r. r + dismiss_ms ≤ d) (λ r. r + 5000 ≤ time)
                (λ r le. ground (arith, le, due)) (mount ∷ disturbances first es)
                (told.rested d set),
          )
    ]
