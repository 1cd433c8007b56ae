-- ===== src/Liveness/Watching.antt =====
-- When the watchdog of assets/js/liveness.js takes a line down.
use kiln_cms.Prelude.{
  ℕ, ◌+◌, ◌≤◌, ◌<◌, ◌≡◌, ◌≢◌, ◌∙◌, refl, ap, ap₂, true, false, ◌↔◌, List, [], ◌∷◌, ◌++◌, arith,
}
use kiln_cms.Liveness.{
  Timing, Page, Watch, Action, ping, rebuild, phx_error, Event, tick, back, pong, message, opened,
  late_due, ChannelState, watch_the_line, drop_views, step, run,
}

-- The times at which a line is taken down.
abbrev pub rebuilds : List Action → List ℕ
rebuilds [] = []
rebuilds (ping _ ∷ rest) = rebuilds rest
rebuilds (phx_error _ ∷ rest) = rebuilds rest
rebuilds (rebuild time ∷ rest) = time ∷ rebuilds rest

rebuilds-append : (xs ys : List Action) → rebuilds (xs ++ ys) ≡ rebuilds xs ++ rebuilds ys
rebuilds-append [] ys = refl
rebuilds-append (ping _ ∷ xs) ys = rebuilds-append xs ys
rebuilds-append (phx_error _ ∷ xs) ys = rebuilds-append xs ys
rebuilds-append (rebuild x ∷ xs) ys = ap (λ r. x ∷ r) (rebuilds-append xs ys)

-- Each time is `gap` or more after the one before it, the first after `from`.
abbrev pub Spaced : ℕ → ℕ → List ℕ → Type 0
Spaced gap from [] = Unit
Spaced gap from (x ∷ xs) = (from + gap ≤ x) × Spaced gap x xs

-- One event takes the line down at most once, and notes when.
abbrev Once : ℕ → ℕ → ℕ → List ℕ → Type 0
Once gap from to [] = to ≡ from
Once gap from to (x ∷ []) = (from + gap ≤ x) × (to ≡ x)
Once gap from to (_ ∷ _ ∷ _) = ⊥

Spaced-append :
    (gap from to : ℕ) (xs ys : List ℕ)
    → Once gap from to xs
    → Spaced gap to ys
    → Spaced gap from (xs ++ ys)
Spaced-append gap from to [] [] h k = tt
Spaced-append gap from to [] (y ∷ ys) h (k, r) = (omega arith, r)
Spaced-append gap from to (x ∷ []) [] (h, e) k = (h, tt)
Spaced-append gap from to (x ∷ []) (y ∷ ys) (h, e) (k, r) = (h, (omega arith, r))
Spaced-append gap from to (_ ∷ _ ∷ _) ys h k = absurd h

rebuilds-drop_views : (i : ℕ) (cs : List ChannelState) → rebuilds (drop_views i cs) ≡ []
unfolding drop_views
rebuilds-drop_views i [] = refl
rebuilds-drop_views i (c ∷ cs) = ground (arith, rebuilds-drop_views (i + 1) cs)

module _ (t : Timing) where
  watch_the_line-Once :
      (p : Page) (time : ℕ) (w : Watch)
      → Once t.revive w.revived_at
          (watch_the_line t p time w).0.revived_at
          (rebuilds (watch_the_line t p time w).1)
  unfolding watch_the_line
  watch_the_line-Once p time w = ground arith

  step-Once :
      (e : Event) (w : Watch)
      → Once t.revive w.revived_at (step t e w).0.revived_at (rebuilds (step t e w).1)
  unfolding step
  step-Once (tick p time) w = watch_the_line-Once p time w
  step-Once (back p time) w = ground arith
  step-Once (pong time) w = refl
  step-Once (message time) w = refl
  step-Once (opened cs time) w = rw (rebuilds-drop_views 0 cs) refl
  step-Once late_due w = ground arith

  -- However the page is used, and whatever the clock says, two rebuilds of the line are at least
  -- `clock.revive` apart, and the first is that long after the one noted in the state.
  pub run-Spaced :
      (es : List Event) (w : Watch) → Spaced t.revive w.revived_at (rebuilds (run t es w).1)
  unfolding run
  run-Spaced [] w = tt
  run-Spaced (e ∷ es) w =
      let (w', acts) = step t e w in
      rw (rebuilds-append acts (run t es w').1) (
        Spaced-append t.revive w.revived_at w'.revived_at (rebuilds acts) _ (step-Once e w)
          (run-Spaced es w'))

  -- When the line deserves to be taken down.
  pub record IsDead (p : Page) (w : Watch) (time : ℕ) : Type 0 where
    pub on_page : (p.has_socket ≡ true) × (p.has_main ≡ true)
    pub up : (p.connected ≡ true) × (p.clean ≡ false)
    pub seen : p.in_front ≡ true
    pub silent : w.heard + t.quiet < time
    pub rested : w.revived_at + t.revive ≤ time

  tick-IsDead :
      (p : Page) (time : ℕ) (w : Watch)
      → IsDead p w time
      → rebuilds (step t (tick p time) w).1 ≡ time ∷ []
  unfolding step
  tick-IsDead p time w h = ground arith

  tick_only-IsDead :
      (p : Page) (time : ℕ) (w : Watch) → rebuilds (step t (tick p time) w).1 ≢ [] → IsDead p w time
  unfolding step
  tick_only-IsDead p time w h = ground arith

  -- A tick takes the line down exactly when there is a socket and a main view, the line is
  -- connected and was not closed on purpose, the page is in front, nothing was heard for more than
  -- `clock.quiet`, and the last rebuild is at least `clock.revive` ago.
  pub tick-IsDead_iff :
      (p : Page) (time : ℕ) (w : Watch)
      → (rebuilds (step t (tick p time) w).1 ≡ time ∷ []) ↔ IsDead p w time
  tick-IsDead_iff p time w = (λ e. tick_only-IsDead p time w (λ n. cc), tick-IsDead p time w)

  -- At each tick the last sign of life is at most `clock.quiet` old.
  abbrev HeardInTime : Event → Watch → Type 0
  HeardInTime (tick p time) w = time ≤ w.heard + t.quiet
  HeardInTime _ w = Unit

  abbrev pub KeptUp : List Event → Watch → Type 0
  KeptUp [] w = Unit
  KeptUp (e ∷ es) w = HeardInTime e w × KeptUp es (step t e w).0

  step_kept : (e : Event) (w : Watch) → HeardInTime e w → rebuilds (step t e w).1 ≡ []
  unfolding step
  step_kept (tick p time) w h = ground arith
  step_kept (back p time) w h = ground arith
  step_kept (pong time) w h = refl
  step_kept (message time) w h = refl
  step_kept (opened cs time) w h = rebuilds-drop_views 0 cs
  step_kept late_due w h = ground arith

  -- A line on which the server is heard in time is never taken down: not by a tick, and not by a
  -- return to the front, however long the page was away.
  pub run_kept : (es : List Event) (w : Watch) → KeptUp es w → rebuilds (run t es w).1 ≡ []
  unfolding run
  run_kept [] w h = refl
  run_kept (e ∷ es) w (h, hs) =
      let (w', acts) = step t e w in
      rebuilds-append acts (run t es w').1
      ∙ ap₂ (λ xs ys. xs ++ ys) (step_kept e w h) (run_kept es w' hs)
