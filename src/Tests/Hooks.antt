-- ===== src/Tests/Hooks.antt =====
-- Runs of the hooks of flash_auto_dismiss.js and reference_picker.js.
use kiln_cms.Prelude.{
  ◌≡◌, ◌≤◌, ◌+◌, refl, true, false, none, some, List, [], ◌∷◌, All, codes, arith,
}
use kiln_cms.FlashAutoDismiss.{
  FlashEvent, enter, leave, mounted, start, stop, step, after, dismisses,
}
use kiln_cms.FlashAutoDismiss.Clock.{
  dismisses-IsLate, pointer_over, focus_within, disturbances, IsOrdered,
}
use kiln_cms.ReferencePicker
use kiln_cms.ReferencePicker.{
  Page, Picker, PickerEvent, pressed, patched, expired, arrow_down, arrow_up, is_open, key,
  note_focus, after_remove, remove_of, run,
}
use kiln_cms.ReferencePicker.Options.{InRange, run-InRange}

-- The pointer comes and goes while "Saved." is shown.
abbrev visits : List FlashEvent
visits = leave false 4000 ∷ enter 3000 ∷ []

dismisses_late : dismisses 9000 (after (mounted (codes "Saved.") false 100) visits) ≡ true
unfolding mounted start stop step after dismisses
dismisses_late = refl

dismisses_early : dismisses 8999 (after (mounted (codes "Saved.") false 100) visits) ≡ false
unfolding mounted start stop step after dismisses
dismisses_early = refl

visits-IsOrdered : IsOrdered 100 visits
visits-IsOrdered = (omega arith, (omega arith, tt), (omega arith, tt, tt))

dismisses-IsLate_example :
    (pointer_over visits ≡ false)
    × (focus_within visits ≡ false)
    × All (λ r. r + 5000 ≤ 9000) (100 ∷ disturbances (codes "Saved.") visits)
dismisses-IsLate_example =
    dismisses-IsLate (codes "Saved.") false 100 visits 9000 visits-IsOrdered dismisses_late

abbrev page : Page
page = record { options = 3; rows = 2; removes = 2; has_search = true; expanded = true }

abbrev picker : Picker
picker = record { active = some 2; descendant = some 2; pending = none; pending_timer = none }

abbrev fewer : Page
fewer = record page { options = 1; rows = 1; removes = 1 }

run-InRange_example :
    let r = run (pressed arrow_down ∷ pressed arrow_up ∷ patched fewer ∷ []) (page, picker) in
    InRange r.0.options r.1.active
run-InRange_example =
    run-InRange (pressed arrow_down ∷ pressed arrow_up ∷ patched fewer ∷ []) page picker
      (omega arith)

-- After the removal, a key, a patch that changes nothing, and a timer that is not due yet.
abbrev waiting : List PickerEvent
waiting = pressed arrow_up ∷ patched page ∷ expired 3400 ∷ []
