-- ===== src/Hooks/Pointer.antt =====
-- The hooks of assets/js/app.js that read the pointer and the clock: `FocalPoint`, `PreviewCursors` and
-- `MentionAutocomplete`. A place in a box is kept in thousandths, rounded down.
use kiln_cms.Prelude.{
  ℕ, ◌+◌, ◌-◌, ◌*◌, ◌/◌, Bool, true, false, Option, none, some, min, ltb, ◌==◌, ◌||◌, if◌then◌else◌,
}

-- A box of the page: its left or top edge, and its size.
pub record Extent : Type 0 where
  pub start : ℕ
  pub size : ℕ

-- `clamp01((at - start) / size)`
unfoldable pub clamped : Extent → ℕ → ℕ
clamped box place = min ((place - box.start) * 1000 / box.size) 1000

pub record Point : Type 0 where
  pub x : ℕ
  pub y : ℕ

-- A click on the image, where there is one.
unfoldable pub focal_click : Option (Extent × Extent) → ℕ → ℕ → Option Point
focal_click none x y = none
focal_click (some (width, height)) x y =
    if width.size == 0 || height.size == 0
    then none
    else some (record { x = clamped width x; y = clamped height y })

pub data FocalKey : Type 0 where
  left right up down other_key : FocalKey

-- `parseFloat(value) || 0.5`: what cannot be read, and zero, count as the middle.
unfoldable pub focal_of : Option ℕ → ℕ
focal_of none = 500
focal_of (some n) = if n == 0 then 500 else n

-- `clamp01(c - 0.05)`, `clamp01(c + 0.05)` and `clamp01(c)`
unfoldable pub nudge_back : ℕ → ℕ
nudge_back c = min (c - 50) 1000

unfoldable pub nudge_on : ℕ → ℕ
nudge_on c = min (c + 50) 1000

unfoldable pub focal_key : FocalKey → Option ℕ → Option ℕ → Option Point
focal_key left fx fy = some (record { x = nudge_back (focal_of fx); y = min (focal_of fy) 1000 })
focal_key right fx fy = some (record { x = nudge_on (focal_of fx); y = min (focal_of fy) 1000 })
focal_key up fx fy = some (record { x = min (focal_of fx) 1000; y = nudge_back (focal_of fy) })
focal_key down fx fy = some (record { x = min (focal_of fx) 1000; y = nudge_on (focal_of fy) })
focal_key other_key fx fy = none

-- `onMove` of `PreviewCursors`: the time of the last move that counted, and whether a place is pushed.
unfoldable pub cursor_move : Extent → Extent → ℕ → ℕ → ℕ × Bool
cursor_move width height now last =
    if ltb (now - last) 50
    then (last, false)
    else (now, if width.size == 0 || height.size == 0 then false else true)

-- `onInput` of `MentionAutocomplete`: the time of the last push, and whether there is one now.
unfoldable pub mention_input : ℕ → ℕ → ℕ × Bool
mention_input now last = if ltb 1500 (now - last) then (now, true) else (last, false)
