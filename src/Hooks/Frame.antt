-- ===== src/Hooks/Frame.antt =====
-- `PresentationFrame` and `UnsavedGuard` of assets/js/app.js: which messages of the framed site are
-- believed, where the console's messages go, and when leaving is stopped.
use kiln_cms.Prelude.{
  Bool, false, not, ◌&&◌, ◌||◌, Option, none, some, [], Text, codes, text_eq, if◌then◌else◌,
}
use kiln_cms.Json.{Json, get, string_of, is_truthy}

pub record PresentationFrame : Type 0 where
  pub origin : Option Text
  pub opaque_ : Bool

-- `dataset.frontendOrigin || null`, and `dataset.opaqueOrigin === "true"`
unfoldable pub frame_mounted : Option Text → Option Text → PresentationFrame
frame_mounted origin opaque_origin = record {
  origin = elim origin [ none ↦ none | some o ↦ if text_eq o [] then none else some o ];
  opaque_ = elim opaque_origin [ none ↦ false | some o ↦ text_eq o (codes "true") ];
}

-- A message: whether it comes from the frame's own window, from which origin, and what it says.
pub record FrameMessage : Type 0 where
  pub from_frame : Bool
  pub origin : Text
  pub said : Json

unfoldable pub trusts : PresentationFrame → FrameMessage → Bool
trusts frame m = elim frame.origin [
  | none ↦ m.from_frame
  | some origin ↦
      m.from_frame
      && (text_eq m.origin origin || (frame.opaque_ && text_eq m.origin (codes "null")))
]

abbrev pub says : Text → Text → Json → Bool
says name value said = elim (string_of (get name said)) [ none ↦ false | some v ↦ text_eq v value ]

-- `d && d.source === "kiln-bridge" && d.event === "edit" && d.payload`
unfoldable pub payload_of : Json → Option Json
payload_of said =
    if says (codes "source") (codes "kiln-bridge") said && says (codes "event") (codes "edit") said
    then elim (get (codes "payload") said) [
      | none ↦ none
      | some payload ↦ if is_truthy payload then some payload else none
    ]
    else none

-- `onMessage`: what is pushed as `edit_field`.
unfoldable pub on_message : PresentationFrame → FrameMessage → Option Json
on_message frame m = if trusts frame m then payload_of m.said else none

-- The origin that a refresh is sent to.
unfoldable pub refresh_target : PresentationFrame → Text
refresh_target frame =
    if frame.opaque_
    then codes "*"
    else elim frame.origin [ none ↦ codes "*" | some origin ↦ origin ]

-- `UnsavedGuard`: a click on a link or a guarded control, whether it opens elsewhere, and what the
-- visitor answers.
pub record GuardedClick : Type 0 where
  pub on_link : Bool
  pub new_tab : Bool
  pub confirmed : Bool

unfoldable pub is_dirty : Option Text → Bool
is_dirty none = false
is_dirty (some value) = text_eq value (codes "true")

-- Whether the click is stopped.
unfoldable pub guard_click : Option Text → GuardedClick → Bool
guard_click dirty c = is_dirty dirty && c.on_link && not c.new_tab && not c.confirmed
