-- ===== src/Liveness/Late.antt =====
-- The mark `phx-late` of assets/js/liveness.js.
use kiln_cms.Prelude.{◌+◌, ◌≤◌, ◌≡◌, true, false, none, List, [], ◌∷◌, arith}
use kiln_cms.Liveness.{Timing, Page, Watch, Event, tick, back, is_standing, step, run}

-- The page has no view to speak of, or a joined view on a live and connected line.
abbrev pub StandsAt : Page → Type 0
StandsAt p = (p.has_socket ≡ true) → (p.has_main ≡ true) → is_standing p ≡ true

-- A tick also finds that the server was heard in time; a return to the front need not.
abbrev pub Stands : Timing → Event → Watch → Type 0
Stands t (tick p time) w = StandsAt p × (time ≤ w.heard + t.quiet)
Stands t (back p time) w = StandsAt p
Stands t _ w = Unit

abbrev pub AlwaysStands : Timing → List Event → Watch → Type 0
AlwaysStands t [] w = Unit
AlwaysStands t (e ∷ es) w = Stands t e w × AlwaysStands t es (step t e w).0

-- No mark, and no timer that would set one.
pub record IsCalm (w : Watch) : Type 0 where
  pub unmarked : w.late ≡ false
  pub idle : w.late_timer ≡ none

step-IsCalm : (t : Timing) (e : Event) (w : Watch) → Stands t e w → IsCalm w → IsCalm (step t e w).0
unfolding step
step-IsCalm t (tick p time) w s h = ground arith
step-IsCalm t (back p time) w s h = ground arith
step-IsCalm t _ w s h = ground arith

-- A page without a mark or a timer, which at each look has no view, or a joined view on a live and
-- connected line, and whose server is heard in time before each tick, is never marked late, and no
-- timer is left that could mark it.
pub run-IsCalm :
    (t : Timing) (es : List Event) (w : Watch)
    → AlwaysStands t es w
    → IsCalm w
    → IsCalm (run t es w).0
unfolding run
run-IsCalm t [] w s h = h
run-IsCalm t (e ∷ es) w (s, ss) h = run-IsCalm t es (step t e w).0 ss (step-IsCalm t e w s h)
