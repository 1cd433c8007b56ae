-- ===== src/Hooks/Presence.antt =====
-- `BlockPresence` and `InlineText` of assets/js/app.js: what is pushed as the focus comes and goes, and
-- what is pushed after a pause.
pub mod Truthful
use kiln_cms.Prelude.{
  ℕ, ◌+◌, Bool, true, false, Option, none, some, List, [], ◌∷◌, ◌++◌, Text, text_eq, leb,
  if◌then◌else◌,
}

abbrev pub leave_ms : ℕ
leave_ms = 120

-- `block_id` is that of the card. `sent` is what was pushed last: nothing yet, or an id or null. The
-- timer is kept as the time at which it is due.
pub record Presence : Type 0 where
  pub block_id : Option Text
  pub sent : Option (Option Text)
  pub pending : Option ℕ

abbrev pub id_eq : Option Text → Option Text → Bool
id_eq none none = true
id_eq (some a) (some b) = text_eq a b
id_eq _ _ = false

-- `this.sent === this.blockId`
abbrev pub is_sent : Option (Option Text) → Option Text → Bool
is_sent none id = false
is_sent (some sent) id = id_eq sent id

unfoldable pub presence_mounted : Option Text → Presence
presence_mounted block_id = record { block_id = block_id; sent = none; pending = none }

-- `onIn`; the ids that are pushed come beside the state.
unfoldable pub on_in : Presence → Presence × List (Option Text)
on_in p =
    if is_sent p.sent p.block_id
    then (record p { pending = none }, [])
    else (record p { pending = none; sent = some p.block_id }, p.block_id ∷ [])

-- `onOut`
unfoldable pub on_out : ℕ → Presence → Presence
on_out time p = record p { pending = some (time + leave_ms) }

-- The timer, when it goes off.
unfoldable pub on_left : Presence → Presence × List (Option Text)
on_left p = elim p.pending [
  | none ↦ (p, [])
  | some due ↦ (record p { pending = none; sent = some none }, none ∷ [])
]

unfoldable pub presence_updated : Option Text → Presence → Presence
presence_updated block_id p = record p { block_id = block_id }

-- What happens to the card.
pub data PresenceEvent : Type 0 where
  focus_in : PresenceEvent
  focus_out : ℕ → PresenceEvent
  timer_rings : ℕ → PresenceEvent
  patched : Option Text → PresenceEvent

abbrev pub is_due : ℕ → Option ℕ → Bool
is_due time none = false
is_due time (some due) = leb due time

unfoldable pub presence_step : PresenceEvent → Presence → Presence × List (Option Text)
presence_step focus_in p = on_in p
presence_step (focus_out time) p = (on_out time p, [])
presence_step (timer_rings time) p = if is_due time p.pending then on_left p else (p, [])
presence_step (patched block_id) p = (presence_updated block_id p, [])

-- `InlineText`: the timer, and whether the text is pushed.
abbrev pub inline_ms : ℕ
inline_ms = 600

unfoldable pub inline_input : ℕ → Option ℕ
inline_input time = some (time + inline_ms)

unfoldable pub inline_blur : Option ℕ × Bool
inline_blur = (none, true)
