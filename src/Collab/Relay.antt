-- ===== src/Collab/Relay.antt =====
-- The awareness frames: no change that was made here goes untold.
use kiln_cms.Prelude.{
  ℕ, ◌+◌, ◌≤◌, ◌≡◌, refl, true, false, Option, none, some, List, [], ◌∷◌, ◌++◌, any, All, All-mono,
  ◌==◌, leb, Bool-cases, Option-cases, List-cases, ◌⊎◌, inl, inr, subst, arith,
}
use kiln_cms.Collab.{
  Awareness, Frame, add_client, add_all, flush_awareness, Update, changed, is_empty, arm,
  push_awareness, AwarenessEvent, update, fires, requested, step, after, Cause, by_removal,
  by_timer, answer_request, awareness_push_ms,
}
use kiln_cms.Collab.Spacing.{time_of, IsOrdered, after-IsSound}

abbrev pub Has : ℕ → List ℕ → Type 0
Has x xs = any (λ y. y == x) xs ≡ true

-- A frame from then on tells of the client.
abbrev pub Sent : ℕ → ℕ → List Frame → Type 0
Sent t id [] = ⊥
Sent t id (f ∷ fs) = ((t ≤ f.time) × Has id f.clients) ⊎ Sent t id fs

-- The client's change at t has been told, or a timer that will tell of it is due in time.
abbrev pub Told : Awareness → List Frame → ℕ → ℕ → Type 0
Told a frames t id =
    (Has id a.pending × ((d : ℕ) × (a.timer ≡ some d) × (d ≤ t + 100))) ⊎ Sent t id frames

-- Every client of every change that was made here, not received.
abbrev pub Covers : Awareness → List Frame → List AwarenessEvent → Type 0
Covers a frames [] = Unit
Covers a frames (update u t ∷ es) =
    (u.remote ≡ false → All (Told a frames t) (changed u)) × Covers a frames es
Covers a frames (fires _ ∷ es) = Covers a frames es
Covers a frames (requested _ _ _ ∷ es) = Covers a frames es

Has-append : (x : ℕ) (xs ys : List ℕ) → Has x xs ⊎ Has x ys → Has x (xs ++ ys)
Has-append x [] ys h = ground arith
Has-append x (y ∷ xs) ys h = elim (Bool-cases (y == x)) [
  | inl same ↦ rw same refl
  | inr other ↦ rw other (Has-append x xs ys (ground arith))
]

Has-add_client : (x id : ℕ) (set : List ℕ) → Has x set ⊎ (id ≡ x) → Has x (add_client set id)
Has-add_client x id set h = elim (Bool-cases (any (λ y. y == id) set)) [
  | inl there ↦ rw there (elim h [ inl p ↦ p | inr e ↦ subst (λ z. Has z set) e there ])
  | inr new ↦
      rw new
        (Has-append x set (id ∷ []) (elim h [ inl p ↦ inl p | inr e ↦ inr (ground (arith, e)) ]))
]

Has-add_all : (x : ℕ) (set ids : List ℕ) → Has x set ⊎ Has x ids → Has x (add_all set ids)
unfolding add_all
Has-add_all x set [] h = ground arith
Has-add_all x set (id ∷ ids) h = Has-add_all x (add_client set id) ids (elim h [
  | inl p ↦ inl (Has-add_client x id set (inl p))
  | inr q ↦ elim (Bool-cases (id == x)) [
    | inl e ↦ inl (Has-add_client x id set (inr (ground (arith, e))))
    | inr e ↦ inr (ground (arith, q, e))
  ]
])

Sent-append : (t id : ℕ) (fs gs : List Frame) → Sent t id gs → Sent t id (fs ++ gs)
Sent-append t id [] gs h = h
Sent-append t id (f ∷ fs) gs h = inr (Sent-append t id fs gs h)

flush-Told :
    (now : ℕ) (cause : Cause) (a : Awareness) (frames : List Frame) (t id : ℕ)
    → t ≤ now
    → Has id a.pending ⊎ Sent t id frames
    → Told (flush_awareness now cause a).0 ((flush_awareness now cause a).1 ++ frames) t id
unfolding flush_awareness
flush-Told now cause a frames t id le h = elim (List-cases a.pending) [
  | inl empty ↦
      rw (empty, flush_awareness)
        (inr (elim h [ inl p ↦ absurd (ground (arith, subst (Has id) empty p)) | inr q ↦ q ]))
  | inr (x, xs, e) ↦
      rw (e, flush_awareness)
        (inr (elim h [ inl p ↦ inl (le, subst (Has id) e p) | inr q ↦ inr q ]))
]

still-Told :
    (a b : Awareness) (frames : List Frame) (t id : ℕ)
    → (Has id a.pending → Has id b.pending)
    → ((d : ℕ) → a.timer ≡ some d → b.timer ≡ some d)
    → Told a frames t id
    → Told b frames t id
still-Told a b frames t id f g (inl (p, (d, e, le))) = inl (f p, (d, g d e, le))
still-Told a b frames t id f g (inr q) = inr q

sent-later :
    (a : Awareness) (new frames : List Frame) (t id : ℕ)
    → Told a frames t id
    → Told a (new ++ frames) t id
sent-later a new frames t id (inl p) = inl p
sent-later a new frames t id (inr q) = inr (Sent-append t id new frames q)

pending-or-Sent :
    (a : Awareness) (frames : List Frame) (t id : ℕ)
    → Told a frames t id
    → Has id a.pending ⊎ Sent t id frames
pending-or-Sent a frames t id (inl (p, _)) = inl p
pending-or-Sent a frames t id (inr q) = inr q

arm-kept : (due : ℕ) (timer : Option ℕ) (d : ℕ) → timer ≡ some d → arm due timer ≡ some d
arm-kept due none d e = ground (arith, e)
arm-kept due (some _) d e = e

push_awareness-Told :
    (now : ℕ) (u : Update) (a : Awareness) (frames : List Frame) (t id : ℕ)
    → t ≤ now
    → Told a frames t id
    → Told (push_awareness now u a).0 ((push_awareness now u a).1 ++ frames) t id
unfolding push_awareness
push_awareness-Told now u a frames t id le h = elim (Bool-cases u.remote) [
  | inl received ↦ rw (received, push_awareness) h
  | inr local ↦
      let noted : Has id a.pending → Has id (add_all a.pending (changed u)) =
        λ p. Has-add_all id a.pending (changed u) (inl p) in
      elim (Bool-cases (is_empty u.removed)) [
        | inl stays ↦
            rw (local, push_awareness, stays)
              (still-Told a _ frames t id noted (arm-kept (now + awareness_push_ms) a.timer) h)
        | inr leaves ↦
            rw (local, push_awareness, leaves)
              (flush-Told now by_removal (record a { pending = add_all a.pending (changed u) })
                frames t id le
                (elim (pending-or-Sent a frames t id h) [ inl p ↦ inl (noted p) | inr q ↦ inr q ]))
      ]
]

step-Told :
    (e : AwarenessEvent) (a : Awareness) (frames : List Frame) (t id : ℕ)
    → t ≤ time_of e
    → Told a frames t id
    → Told (step e a).0 ((step e a).1 ++ frames) t id
unfolding step
step-Told (update u now) a frames t id le h = push_awareness-Told now u a frames t id le h
step-Told (fires now) a frames t id le h = elim (Option-cases a.timer) [
  | inl off ↦ rw (off, step) h
  | inr (due, set) ↦ elim (Bool-cases (leb due now)) [
    | inl rings ↦
        rw (set, step, rings)
          (flush-Told now by_timer a frames t id le (pending-or-Sent a frames t id h))
    | inr early ↦ rw (set, step, early) h
  ]
]
step-Told (requested client has_state now) a frames t id le h =
    sent-later a (answer_request now client has_state) frames t id h

All-Has : (P : ℕ → Type 0) (xs : List ℕ) → ((x : ℕ) → Has x xs → P x) → All P xs
All-Has P [] f = tt
All-Has P (x ∷ xs) f = (f x (ground arith), All-Has P xs (λ y h. f y (ground (arith, h))))

arm-due :
    (now : ℕ) (timer : Option ℕ)
    → ((d : ℕ) → timer ≡ some d → d ≤ now + 100)
    → (d : ℕ) × (arm (now + awareness_push_ms) timer ≡ some d) × (d ≤ now + 100)
arm-due now none soon = (now + 100, refl, omega arith)
arm-due now (some d) soon = (d, refl, soon d refl)

push_awareness-new :
    (now : ℕ) (u : Update) (a : Awareness) (frames : List Frame) (id : ℕ)
    → ((d : ℕ) → a.timer ≡ some d → d ≤ now + 100)
    → u.remote ≡ false
    → Has id (changed u)
    → Told (push_awareness now u a).0 ((push_awareness now u a).1 ++ frames) now id
unfolding push_awareness
push_awareness-new now u a frames id soon local h =
    let noted : Has id (add_all a.pending (changed u)) =
      Has-add_all id a.pending (changed u) (inr h) in
    elim (Bool-cases (is_empty u.removed)) [
      | inl stays ↦ rw (local, push_awareness, stays) (inl (noted, arm-due now a.timer soon))
      | inr leaves ↦
          rw (local, push_awareness, leaves)
            (flush-Told now by_removal (record a { pending = add_all a.pending (changed u) }) frames
              now id (omega arith) (inl noted))
    ]

step-Covers :
    (e : AwarenessEvent) (a : Awareness) (frames : List Frame) (es : List AwarenessEvent)
    → All (λ d. time_of d ≤ time_of e) es
    → Covers a frames es
    → Covers (step e a).0 ((step e a).1 ++ frames) es
step-Covers e a frames [] le h = tt
step-Covers e a frames (update u t ∷ es) le h = (
  λ local.
      All-mono (Told a frames t) (Told (step e a).0 ((step e a).1 ++ frames) t)
        (λ id told. step-Told e a frames t id le.0 told) (changed u) (h.0 local),
  step-Covers e a frames es le.1 h.1,
)
step-Covers e a frames (fires _ ∷ es) le h = step-Covers e a frames es le.1 h
step-Covers e a frames (requested _ _ _ ∷ es) le h = step-Covers e a frames es le.1 h

-- While the clock does not go back: each client of each change of the awareness that was made here
-- has been told of in a frame since, or waits for a timer that is due within 100 ms of the change.
pub after-Covers : (es : List AwarenessEvent) → IsOrdered es → Covers (after es).0 (after es).1 es
unfolding after step
after-Covers [] h = tt
after-Covers (update u t ∷ es) h = (
  λ local.
      All-Has
        (Told (step (update u t) (after es).0).0
          ((step (update u t) (after es).0).1 ++ (after es).1) t)
        (changed u)
        (λ id has.
          push_awareness-new t u (after es).0 (after es).1 id (after-IsSound es t h.1 h.0).0.soon
            local has),
  step-Covers (update u t) (after es).0 (after es).1 es h.0 (after-Covers es h.1),
)
after-Covers (fires t ∷ es) h =
    step-Covers (fires t) (after es).0 (after es).1 es h.0 (after-Covers es h.1)
after-Covers (requested client has_state t ∷ es) h =
    step-Covers (requested client has_state t) (after es).0 (after es).1 es h.0
      (after-Covers es h.1)
