-- ===== src/Hooks/Presence/Truthful.antt =====
-- What the server knows of the focus.
use kiln_cms.Prelude.{
  ℕ, ◌+◌, ◌≡◌, ◌⊎◌, inl, inr, refl, sym, ap, subst, ◌∙◌, Bool, true, false, Option, none, some,
  or_else, List, [], ◌∷◌, Text, if◌then◌else◌, Bool-cases, arith,
}
use kiln_cms.Hooks.Presence.{
  Presence, is_sent, is_due, on_in, on_out, on_left, presence_updated, PresenceEvent, focus_in,
  focus_out, timer_rings, patched, presence_step, presence_mounted, leave_ms,
}

-- The last of the pushes, or what was heard before them.
abbrev pub last_heard : List (Option Text) → Option Text → Option Text
last_heard [] heard = heard
last_heard (id ∷ ids) heard = last_heard ids id

-- The card, what the server heard last, and whether the focus is in the card, and since when it is not.
pub record Scene : Type 0 where
  pub card : Presence
  pub heard : Option Text
  pub inside : Bool
  pub left_at : ℕ

unfoldable pub scene_step : PresenceEvent → Scene → Scene
scene_step focus_in s =
    let (card, pushed) = presence_step focus_in s.card in
    record s { card = card; heard = last_heard pushed s.heard; inside = true }
scene_step (focus_out time) s =
    let (card, pushed) = presence_step (focus_out time) s.card in
    record s { card = card; heard = last_heard pushed s.heard; inside = false; left_at = time }
scene_step (timer_rings time) s =
    let (card, pushed) = presence_step (timer_rings time) s.card in
    record s { card = card; heard = last_heard pushed s.heard }
scene_step (patched id) s =
    let (card, pushed) = presence_step (patched id) s.card in
    record s { card = card; heard = last_heard pushed s.heard }

unfoldable pub scene_run : List PresenceEvent → Scene → Scene
scene_run [] s = s
scene_run (e ∷ es) s = scene_run es (scene_step e s)

-- The focus is in the card: no word of its leaving waits. It is not: the word waits for a timer that
-- is due 120 ms after it left; or the server knows of no block. And the card knows what was pushed.
pub record IsTruthful (s : Scene) : Type 0 where
  pub knows : s.heard ≡ or_else s.card.sent none
  pub stays : s.inside ≡ true → s.card.pending ≡ none
  pub leaves : s.inside ≡ false → (s.card.pending ≡ some (s.left_at + leave_ms)) ⊎ (s.heard ≡ none)

on_in-sent :
    (p : Presence) → is_sent p.sent p.block_id ≡ true → on_in p ≡ (record p { pending = none }, [])
unfolding on_in
on_in-sent p e = rw e refl

on_in-new :
    (p : Presence)
    → is_sent p.sent p.block_id ≡ false
    → on_in p ≡ (record p { pending = none; sent = some p.block_id }, p.block_id ∷ [])
unfolding on_in
on_in-new p e = rw e refl

on_left-due :
    (p : Presence) (due : ℕ)
    → p.pending ≡ some due
    → on_left p ≡ (record p { pending = none; sent = some none }, none ∷ [])
unfolding on_left
on_left-due p due e = rw (e, on_left) refl

-- The scene after a step of the card.
abbrev entered : Scene → Presence × List (Option Text) → Scene
entered s r = record s { card = r.0; heard = last_heard r.1 s.heard; inside = true }

abbrev rung : Scene → Presence × List (Option Text) → Scene
rung s r = record s { card = r.0; heard = last_heard r.1 s.heard }

is_due-some : (time : ℕ) (o : Option ℕ) → is_due time o ≡ true → (due : ℕ) × (o ≡ some due)
is_due-some time none e = ground (arith, e)
is_due-some time (some due) e = (due, refl)

scene_step-IsTruthful : (e : PresenceEvent) (s : Scene) → IsTruthful s → IsTruthful (scene_step e s)
unfolding scene_step presence_step on_out presence_updated
scene_step-IsTruthful focus_in s t = elim (Bool-cases (is_sent s.card.sent s.card.block_id)) [
  | inl known ↦
      subst (λ r. IsTruthful (entered s r)) (sym (on_in-sent s.card known))
        (record { knows = t.knows; stays = λ _. refl; leaves = λ e. ground (arith, e) })
  | inr new_ ↦
      subst (λ r. IsTruthful (entered s r)) (sym (on_in-new s.card new_))
        (record { knows = refl; stays = λ _. refl; leaves = λ e. ground (arith, e) })
]
scene_step-IsTruthful (focus_out time) s t = record {
  knows = t.knows;
  stays = λ e. ground (arith, e);
  leaves = λ _. inl refl;
}
scene_step-IsTruthful (timer_rings time) s t = elim (Bool-cases (is_due time s.card.pending)) [
  | inl due_ ↦
      let (due, waits) = is_due-some time s.card.pending due_ in
      subst (λ r. IsTruthful (rung s r))
        (sym (
          ap (λ b. if b then on_left s.card else (s.card, [])) due_ ∙ on_left-due s.card due waits))
        (record { knows = refl; stays = λ _. refl; leaves = λ _. inr refl })
  | inr early ↦
      subst (λ r. IsTruthful (rung s r))
        (sym (ap (λ b. if b then on_left s.card else (s.card, [])) early))
        (record { knows = t.knows; stays = t.stays; leaves = t.leaves })
]
scene_step-IsTruthful (patched id) s t = record {
  knows = t.knows;
  stays = t.stays;
  leaves = t.leaves;
}

-- A scene just after the card was mounted.
abbrev pub opening : Option Text → Scene
opening id = record { card = presence_mounted id; heard = none; inside = false; left_at = 0 }

scene_run-from : (es : List PresenceEvent) (s : Scene) → IsTruthful s → IsTruthful (scene_run es s)
unfolding scene_run
scene_run-from [] s t = t
scene_run-from (e ∷ es) s t = scene_run-from es (scene_step e s) (scene_step-IsTruthful e s t)

-- However the focus comes and goes, whenever the timer goes off, and whatever block the card becomes:
-- while the focus is in the card, no word of its leaving waits to be sent; while it is not, either the
-- word waits for a timer that is due 120 ms after it left, or the server knows of no block; and what
-- the card takes for sent is what the server heard last.
pub scene_run-IsTruthful :
    (id : Option Text) (es : List PresenceEvent) → IsTruthful (scene_run es (opening id))
unfolding presence_mounted
scene_run-IsTruthful id es =
    scene_run-from es (opening id)
      (record { knows = refl; stays = λ e. refl; leaves = λ _. inr refl })
