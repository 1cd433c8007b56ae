-- ===== src/Collab.antt =====
-- assets/js/collab.js: one shared document and channel per topic, the awareness frames, sent together
-- or at once, and the join that tells whether this is the first peer. Yjs, its encodings, its updates
-- and the Phoenix channel are not modelled.
pub mod Spacing
pub mod Relay
pub mod Sharing
use kiln_cms.Prelude.{
  ℕ, ◌+◌, ◌-◌, Bool, true, false, not, ◌||◌, Option, none, some, List, [], ◌∷◌, ◌++◌, any, Text,
  codes, text_eq, ltb, leb, ◌==◌, keep, is_some, if◌then◌else◌,
}

abbrev pub awareness_push_ms : ℕ
awareness_push_ms = 100

-- `pendingAwareness`, a set in the order of insertion, and when `awarenessTimer` is due.
pub record Awareness : Type 0 where
  pub pending : List ℕ
  pub timer : Option ℕ

-- What makes an awareness frame be pushed: the timer, a removal, which does not wait for it, or the
-- request of a peer that joins.
pub data Cause : Type 0 where
  by_timer by_removal by_request : Cause

-- A frame on the channel: when it was pushed, the clients that it tells of, and why.
pub record Frame : Type 0 where
  pub time : ℕ
  pub clients : List ℕ
  pub cause : Cause

-- `Set.add`
abbrev pub add_client : List ℕ → ℕ → List ℕ
add_client set id = if any (λ x. x == id) set then set else set ++ id ∷ []

unfoldable pub add_all : List ℕ → List ℕ → List ℕ
add_all set [] = set
add_all set (id ∷ ids) = add_all (add_client set id) ids

unfoldable pub flush_awareness : ℕ → Cause → Awareness → Awareness × List Frame
flush_awareness time cause a = elim a.pending [
  | [] ↦ (record a { timer = none }, [])
  | id ∷ ids ↦ (
    record { pending = []; timer = none },
    record { time = time; clients = id ∷ ids; cause = cause } ∷ [],
  )
]

-- An update of the awareness: the clients added, updated and removed, and whether it came from the
-- channel (`origin === REMOTE_ORIGIN`).
pub record Update : Type 0 where
  pub added : List ℕ
  pub updated : List ℕ
  pub removed : List ℕ
  pub remote : Bool

abbrev pub changed : Update → List ℕ
changed u = u.added ++ u.updated ++ u.removed

abbrev pub is_empty : List ℕ → Bool
is_empty [] = true
is_empty (_ ∷ _) = false

abbrev pub arm : ℕ → Option ℕ → Option ℕ
arm due none = some due
arm due (some d) = some d

unfoldable pub push_awareness : ℕ → Update → Awareness → Awareness × List Frame
push_awareness time u a =
    if u.remote
    then (a, [])
    else let noted = record a { pending = add_all a.pending (changed u) } in
      if is_empty u.removed
      then (record noted { timer = arm (time + awareness_push_ms) noted.timer }, [])
      else flush_awareness time by_removal noted

-- A newcomer asks for the state of this client, which is pushed where it has one.
unfoldable pub answer_request : ℕ → ℕ → Bool → List Frame
answer_request time client has_state =
    if has_state then record { time = time; clients = client ∷ []; cause = by_request } ∷ [] else []

-- The document's awareness changes, or the timer fires, which it does when it is due, or a newcomer
-- asks for this client's state.
pub data AwarenessEvent : Type 0 where
  update : Update → ℕ → AwarenessEvent
  fires : ℕ → AwarenessEvent
  requested : ℕ → Bool → ℕ → AwarenessEvent

unfoldable pub step : AwarenessEvent → Awareness → Awareness × List Frame
step (update u time) a = push_awareness time u a
step (fires time) a = elim a.timer [
  | none ↦ (a, [])
  | some due ↦ if leb due time then flush_awareness time by_timer a else (a, [])
]
step (requested client has_state time) a = (a, answer_request time client has_state)

-- The state after the events, the latest event first, and the frames, the latest first.
unfoldable pub after : List AwarenessEvent → Awareness × List Frame
after [] = (record { pending = []; timer = none }, [])
after (e ∷ es) = let (a, frames) = after es in let (b, pushed) = step e a in (b, pushed ++ frames)

-- `docs[topic]` of one topic: the entry by its number, and its users; and how many were made.
pub record Shared : Type 0 where
  pub entry : Option (ℕ × ℕ)
  pub made : ℕ

pub data ChannelAction : Type 0 where
  joins leaves : ℕ → ChannelAction

-- `acquireDoc`, which answers with the entry that it hands out
unfoldable pub acquire : Shared → Shared × ℕ × List ChannelAction
acquire s = elim s.entry [
  | none ↦ (record { entry = some (s.made, 1); made = s.made + 1 }, s.made, joins s.made ∷ [])
  | some (doc, refs) ↦ (record s { entry = some (doc, refs + 1) }, doc, [])
]

-- `release` of a handle on an entry; one that is no longer registered has no users left.
unfoldable pub release : ℕ → Shared → Shared × List ChannelAction
release handle s = elim s.entry [
  | none ↦ (s, leaves handle ∷ [])
  | some (doc, refs) ↦
      if doc == handle
      then (if ltb 1 refs
          then (record s { entry = some (doc, refs - 1) }, [])
          else (record s { entry = none }, leaves handle ∷ []))
      else (record s { entry = none }, leaves handle ∷ [])
]

-- What the server answers to a join: the peers, or the reason of a refusal.
pub data Reply : Type 0 where
  ok : ℕ → Reply
  refused : Option Text → Reply

abbrev pub is_transient : Option Text → Bool
is_transient none = false
is_transient (some reason) = text_eq reason (codes "over budget")

-- `whenReady`, once resolved, keeps its value: whether this is the first peer.
abbrev pub resolve : Bool → Option Bool → Option Bool
resolve first none = some first
resolve first (some b) = some b

unfoldable pub receive : Reply → Option Bool → Option Bool
receive (ok peers) ready = resolve (peers == 1) ready
receive (refused reason) ready = if is_transient reason then ready else resolve true ready

unfoldable pub receive_all : List Reply → Option Bool → Option Bool
receive_all [] ready = ready
receive_all (r ∷ rs) ready = receive_all rs (receive r ready)
