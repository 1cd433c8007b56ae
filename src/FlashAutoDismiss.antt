-- ===== src/FlashAutoDismiss.antt =====
-- assets/js/flash_auto_dismiss.js: an information flash that closes on its own, and the clock that
-- stands still while somebody is at it. What the document shows at an event is part of the event.
pub mod Clock
use kiln_cms.Prelude.{
  ℕ, ◌+◌, Bool, true, false, not, ◌||◌, Option, none, some, List, [], ◌∷◌, Text, text_eq, leb,
  is_some, if◌then◌else◌,
}

abbrev pub dismiss_ms : ℕ
dismiss_ms = 5000

-- `timer` is the hook's variable, and `pending` is the timer that the browser really has: firing
-- does not reset the variable.
pub record Flash : Type 0 where
  pub hovered : Bool
  pub focused : Bool
  pub message : Text
  pub timer : Option ℕ
  pub pending : Option ℕ

unfoldable pub stop : Flash → Flash
stop f = record f { timer = none; pending = if is_some f.timer then none else f.pending }

-- `hidden` is the element's, read at the time
unfoldable pub start : Bool → ℕ → Flash → Flash
unfolding stop
start hidden time f =
    let g = stop f in
    if g.hovered || g.focused || hidden
    then g
    else record g { timer = some (time + dismiss_ms); pending = some (time + dismiss_ms) }

unfoldable pub mounted : Text → Bool → ℕ → Flash
unfolding start
mounted message hidden time =
    start hidden time
      (record { hovered = false; focused = false; message = message; timer = none; pending = none })

-- What happens to the hook. Focus that moves within the flash tells of it, too.
pub data FlashEvent : Type 0 where
  enter : ℕ → FlashEvent
  leave : Bool → ℕ → FlashEvent
  focus_in : ℕ → FlashEvent
  focus_out : Bool → Bool → ℕ → FlashEvent  -- to a place within the flash
  updated : Text → Bool → ℕ → FlashEvent
  fires : ℕ → FlashEvent
  destroyed : ℕ → FlashEvent

unfoldable pub step : FlashEvent → Flash → Flash
unfolding start stop
step (enter time) f = stop (record f { hovered = true })
step (leave hidden time) f = start hidden time (record f { hovered = false })
step (focus_in time) f = stop (record f { focused = true })
step (focus_out inside hidden time) f =
    if inside then f else start hidden time (record f { focused = false })
step (updated message hidden time) f =
    if text_eq message f.message then f else start hidden time (record f { message = message })
step (fires time) f = record f { pending = none }
step (destroyed time) f = stop f

-- Whether the timer is there and due, so that `dismiss` runs.
unfoldable pub dismisses : ℕ → Flash → Bool
dismisses time f = elim f.pending [ none ↦ false | some due ↦ leb due time ]

-- The events after mounting, the latest first.
unfoldable pub after : Flash → List FlashEvent → Flash
unfolding step
after f [] = f
after f (e ∷ es) = step e (after f es)
