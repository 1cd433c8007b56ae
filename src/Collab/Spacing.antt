-- ===== src/Collab/Spacing.antt =====
-- When the awareness frames are sent.
use kiln_cms.Prelude.{
  ℕ, ◌+◌, ◌≤◌, ◌≡◌, true, false, Option, none, some, List, [], ◌∷◌, ◌++◌, All, All-mono, leb,
  Bool-cases, Option-cases, List-cases, inl, inr, ◌⊎◌, refl, arith,
}
use kiln_cms.Collab.{
  Awareness, Frame, add_all, flush_awareness, Update, changed, is_empty, arm, push_awareness,
  AwarenessEvent, update, fires, requested, step, after, Cause, by_timer, by_removal, by_request,
  answer_request, awareness_push_ms,
}

abbrev pub time_of : AwarenessEvent → ℕ
time_of (update _ t) = t
time_of (fires t) = t
time_of (requested _ _ t) = t

-- The clock does not go back.
abbrev pub IsOrdered : List AwarenessEvent → Type 0
IsOrdered [] = Unit
IsOrdered (e ∷ es) = All (λ d. time_of d ≤ time_of e) es × IsOrdered es

-- The frame answers a request, or was pushed 100 ms before then, or earlier.
abbrev pub IsApart : Frame → ℕ → Type 0
IsApart f t = (f.cause ≡ by_request) ⊎ (f.time + 100 ≤ t)

IsApart-later : (f : Frame) (t u : ℕ) → t ≤ u → IsApart f t → IsApart f u
IsApart-later f t u le (inl asked) = inl asked
IsApart-later f t u le (inr gap) = inr (omega (arith, gap, le))

-- What holds of the relay and the frames that it has sent, up to now.
pub record IsSound (now : ℕ) (a : Awareness) (frames : List Frame) : Type 0 where
  pub past : All (λ f. f.time ≤ now) frames
  pub late : (d : ℕ) → a.timer ≡ some d → All (λ f. IsApart f d) frames
  pub soon : (d : ℕ) → a.timer ≡ some d → d ≤ now + 100

arm-late :
    (now : ℕ) (timer : Option ℕ) (frames : List Frame)
    → All (λ f. f.time ≤ now) frames
    → ((d : ℕ) → timer ≡ some d → All (λ f. IsApart f d) frames)
    → (d : ℕ) → arm (now + awareness_push_ms) timer ≡ some d
    → All (λ f. IsApart f d) frames
arm-late now none frames past late d e =
    All-mono (λ f. f.time ≤ now) (λ f. IsApart f d) (λ f le. inr (ground (arith, le, e))) frames
      past
arm-late now (some _) frames past late d e = late d e

arm-soon :
    (now : ℕ) (timer : Option ℕ)
    → ((d : ℕ) → timer ≡ some d → d ≤ now + 100)
    → (d : ℕ) → arm (now + awareness_push_ms) timer ≡ some d
    → d ≤ now + 100
arm-soon now none soon d e = ground (arith, e)
arm-soon now (some _) soon d e = soon d e

-- A frame that the timer sends comes 100 ms after each frame before it, or later, but for answers to
-- requests.
abbrev pub IsSpaced : List Frame → Type 0
IsSpaced [] = Unit
IsSpaced (f ∷ fs) = (f.cause ≡ by_timer → All (λ g. IsApart g f.time) fs) × IsSpaced fs

flush-IsSound :
    (now : ℕ) (cause : Cause) (a : Awareness) (frames : List Frame)
    → All (λ f. f.time ≤ now) frames
    → (cause ≡ by_timer → All (λ f. IsApart f now) frames)
    → IsSpaced frames
    → IsSound now (flush_awareness now cause a).0 ((flush_awareness now cause a).1 ++ frames)
      × IsSpaced ((flush_awareness now cause a).1 ++ frames)
unfolding flush_awareness
flush-IsSound now cause a frames past gap spaced = elim (List-cases a.pending) [
  | inl empty ↦
      rw (empty, flush_awareness)
        (
          record {
            past = past;
            late = λ d e. absurd (ground (arith, e));
            soon = λ d e. ground (arith, e);
          },
          spaced,
        )
  | inr (x, xs, e) ↦
      rw (e, flush_awareness)
        (
          record {
            past = (omega arith, past);
            late = λ d e. absurd (ground (arith, e));
            soon = λ d e. ground (arith, e);
          },
          (gap, spaced),
        )
]

push_awareness-IsSound :
    (now : ℕ) (u : Update) (a : Awareness) (frames : List Frame)
    → IsSound now a frames
    → IsSpaced frames
    → IsSound now (push_awareness now u a).0 ((push_awareness now u a).1 ++ frames)
      × IsSpaced ((push_awareness now u a).1 ++ frames)
unfolding push_awareness
push_awareness-IsSound now u a frames h spaced = elim (Bool-cases u.remote) [
  | inl received ↦ rw (received, push_awareness) (h, spaced)
  | inr local ↦ elim (Bool-cases (is_empty u.removed)) [
    | inl stays ↦
        rw (local, push_awareness, stays)
          (
            record {
              past = h.past;
              late = arm-late now a.timer frames h.past h.late;
              soon = arm-soon now a.timer h.soon;
            },
            spaced,
          )
    | inr leaves ↦
        rw (local, push_awareness, leaves)
          (flush-IsSound now by_removal (record a { pending = add_all a.pending (changed u) })
            frames h.past (λ e. absurd (ground (arith, e))) spaced)
  ]
]

step-IsSound :
    (e : AwarenessEvent) (a : Awareness) (frames : List Frame)
    → IsSound (time_of e) a frames
    → IsSpaced frames
    → IsSound (time_of e) (step e a).0 ((step e a).1 ++ frames) × IsSpaced ((step e a).1 ++ frames)
unfolding step answer_request
step-IsSound (update u now) a frames h spaced = push_awareness-IsSound now u a frames h spaced
step-IsSound (fires now) a frames h spaced = elim (Option-cases a.timer) [
  | inl off ↦ rw (off, step) (h, spaced)
  | inr (due, set) ↦ elim (Bool-cases (leb due now)) [
    | inl rings ↦
        rw (set, step, rings)
          (flush-IsSound now by_timer a frames h.past
            (λ _.
              All-mono (λ f. IsApart f due) (λ f. IsApart f now)
                (λ f gap. IsApart-later f due now (ground (arith, rings)) gap) frames
                (h.late due set))
            spaced)
    | inr early ↦ rw (set, step, early) (h, spaced)
  ]
]
step-IsSound (requested client true now) a frames h spaced = (
  record { past = (omega arith, h.past); late = λ d e. (inl refl, h.late d e); soon = h.soon },
  ((λ e. absurd (ground (arith, e))), spaced),
)
step-IsSound (requested client false now) a frames h spaced = (h, spaced)

later-IsSound :
    (now later : ℕ) (a : Awareness) (frames : List Frame)
    → now ≤ later
    → IsSound now a frames
    → IsSound later a frames
later-IsSound now later a frames le h = record {
  past =
      All-mono (λ f. f.time ≤ now) (λ f. f.time ≤ later) (λ f p. omega (arith, p, le)) frames
        h.past;
  late = h.late;
  soon = λ d e. omega (arith, h.soon d e, le);
}

pub after-IsSound :
    (es : List AwarenessEvent) (now : ℕ)
    → IsOrdered es
    → All (λ d. time_of d ≤ now) es
    → IsSound now (after es).0 (after es).1 × IsSpaced (after es).1
unfolding after
after-IsSound [] now h le =
    (record { past = tt; late = λ d e. tt; soon = λ d e. ground (arith, e) }, tt)
after-IsSound (e ∷ es) now h le =
    let (sound, spaced) = after-IsSound es (time_of e) h.1 h.0 in
    let (sound', spaced') = step-IsSound e (after es).0 (after es).1 sound spaced in
    (
      later-IsSound (time_of e) now (step e (after es).0).0
          ((step e (after es).0).1 ++ (after es).1) le.0 sound',
      spaced',
    )

-- While the clock does not go back, a frame that is sent by the timer, rather than at once for a
-- removal or a newcomer's request, comes at least 100 ms after every frame before it that the timer or
-- a removal sent.
pub after-IsSpaced : (es : List AwarenessEvent) → IsOrdered es → IsSpaced (after es).1
after-IsSpaced [] h = (after-IsSound [] 0 h tt).1
after-IsSpaced (e ∷ es) h = (after-IsSound (e ∷ es) (time_of e) h (omega arith, h.0)).1
