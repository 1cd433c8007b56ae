-- ===== src/ConnectionNotice/Grace.antt =====
-- When the notices of assets/js/connection_notice.js are shown.
use kiln_cms.Prelude.{
  ℕ, ◌+◌, ◌≤◌, ◌≡◌, ◌↔◌, refl, Bool, true, ◌||◌, Option, none, some, List, [], ◌∷◌, arith,
}
use kiln_cms.ConnectionNotice.{Trouble, client, server, Notices, Look, look, watch, start}

-- The history told independently: when the present, unbroken stretch of trouble began.
abbrev began : Option Trouble → Option ℕ → ℕ → Option ℕ
began none before time = none
began (some k) none time = some time
began (some k) (some s) time = some s

abbrev pub stretch : List Look → Option ℕ
stretch [] = none
stretch (l ∷ ls) = began l.trouble (stretch ls) l.time

look-since :
    (grace : ℕ) (l : Look) (n : Notices)
    → (look grace l n).trouble_since ≡ began l.trouble n.trouble_since l.time
unfolding look
look-since grace l n = ground arith

-- The state remembers the beginning of the stretch.
pub watch-stretch : (grace : ℕ) (ls : List Look) → (watch grace ls).trouble_since ≡ stretch ls
unfolding watch start
watch-stretch grace [] = refl
watch-stretch grace (l ∷ ls) =
    rw (look-since grace l (watch grace ls)) (rw (watch-stretch grace ls) refl)

-- Whether the notice of a kind is not hidden.
abbrev pub shown : Trouble → Notices → Bool
shown client n = n.client_shown
shown server n = n.server_shown

-- The trouble has lasted for the grace period.
abbrev pub Lasted : ℕ → Option ℕ → ℕ → Type 0
Lasted grace none time = ⊥
Lasted grace (some s) time = s + grace ≤ time

look-shown :
    (grace : ℕ) (k : Trouble) (l : Look) (n : Notices)
    → shown k (look grace l n) ≡ true
    → (l.trouble ≡ some k) × Lasted grace (began l.trouble n.trouble_since l.time) l.time
unfolding look
look-shown grace client l n h = ground arith
look-shown grace server l n h = ground arith

shown-look :
    (grace : ℕ) (k : Trouble) (l : Look) (n : Notices)
    → l.trouble ≡ some k
    → Lasted grace (began l.trouble n.trouble_since l.time) l.time
    → shown k (look grace l n) ≡ true
unfolding look
shown-look grace client l n e h = ground arith
shown-look grace server l n e h = ground arith

-- After any looks at the page, whatever the clock said, the notice of a kind is up exactly when the
-- last look found that kind of trouble and the unbroken stretch of trouble, of either kind, had
-- then lasted for the grace period.
pub watch-shown_iff :
    (grace : ℕ) (k : Trouble) (l : Look) (ls : List Look)
    → (shown k (watch grace (l ∷ ls)) ≡ true)
      ↔ ((l.trouble ≡ some k) × Lasted grace (stretch (l ∷ ls)) l.time)
unfolding watch
watch-shown_iff grace k l ls =
    rw (← watch-stretch grace ls)
      (look-shown grace k l (watch grace ls), λ (e, h). shown-look grace k l (watch grace ls) e h)

-- The timer that the page keeps: none without trouble; in trouble the end of the grace period, or
-- none where a notice is up.
abbrev pub TimerFits : ℕ → Option ℕ → Option ℕ → Bool → Type 0
TimerFits grace none timer up = timer ≡ none
TimerFits grace (some s) none up = up ≡ true
TimerFits grace (some s) (some due) up = due ≡ s + grace

look-TimerFits :
    (grace : ℕ) (l : Look) (n : Notices)
    → TimerFits grace n.trouble_since n.timer (n.client_shown || n.server_shown)
    → let n' = look grace l n in
      TimerFits grace n'.trouble_since n'.timer (n'.client_shown || n'.server_shown)
unfolding look
look-TimerFits grace l n h = ground arith

-- The page never waits in vain: after any looks, if there is trouble and no notice is up, a timer is
-- set for the end of the grace period of the present stretch; and without trouble none is set.
pub watch-TimerFits :
    (grace : ℕ) (ls : List Look)
    → let n = watch grace ls in
      TimerFits grace (stretch ls) n.timer (n.client_shown || n.server_shown)
unfolding watch start
watch-TimerFits grace [] = refl
watch-TimerFits grace (l ∷ ls) =
    rw (← watch-stretch grace ls, ← look-since grace l (watch grace ls))
      (look-TimerFits grace l (watch grace ls)
        (rw (watch-stretch grace ls) (watch-TimerFits grace ls)))
