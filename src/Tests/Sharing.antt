-- ===== src/Tests/Sharing.antt =====
-- Runs of collab.js: users that come and go, carets that move, joins that are refused.
use kiln_cms.Prelude.{◌≡◌, refl, true, false, none, some, List, [], ◌∷◌, codes, arith, ℕ}
use kiln_cms.Collab.{
  Update, AwarenessEvent, update, fires, requested, step, after, by_timer, by_removal, by_request,
  answer_request, push_awareness, flush_awareness, add_all, Reply, ok, refused, receive,
  receive_all,
}
use kiln_cms.Collab.Spacing.{IsOrdered, IsSpaced, after-IsSpaced}
use kiln_cms.Collab.Relay.{Covers, after-Covers}
use kiln_cms.Collab.Sharing.{
  Use, comes, goes, use_all, IsShared, use_all-IsShared, open_channels, receive_all-first,
  first_answer,
}

abbrev caret_of : ℕ → Update
caret_of id = record { added = []; updated = id ∷ []; removed = []; remote = false }

abbrev departure : Update
departure = record { added = []; updated = []; removed = 7 ∷ []; remote = false }

-- The latest first: a drag of the caret, a frame for it, a newcomer's request,
-- another move, and the editor closes.
abbrev carets : List AwarenessEvent
carets =
    update departure 260
    ∷ update (caret_of 7) 210
    ∷ requested 7 true 150
    ∷ fires 120
    ∷ update (caret_of 7) 40
    ∷ update (caret_of 7) 20
    ∷ []

frames_run :
    (after carets).1
    ≡ record { time = 260; clients = 7 ∷ []; cause = by_removal }
      ∷ record { time = 150; clients = 7 ∷ []; cause = by_request }
      ∷ record { time = 120; clients = 7 ∷ []; cause = by_timer }
      ∷ []
unfolding after step push_awareness flush_awareness add_all answer_request
frames_run = refl

carets-IsOrdered : IsOrdered carets
carets-IsOrdered = ground arith

after-Covers_example : Covers (after carets).0 (after carets).1 carets
after-Covers_example = after-Covers carets carets-IsOrdered

after-IsSpaced_example : IsSpaced (after carets).1
after-IsSpaced_example = after-IsSpaced carets carets-IsOrdered

abbrev users : List Use
users = comes ∷ comes ∷ goes 1 ∷ comes ∷ goes 0 ∷ goes 0 ∷ comes ∷ []

use_all-IsShared_example :
    let (t, held, done) = use_all users (record { entry = none; made = 0 }, [], []) in
    IsShared t held (open_channels done [])
use_all-IsShared_example = use_all-IsShared users 0

abbrev replies : List Reply
replies = refused (some (codes "over budget")) ∷ ok 3 ∷ refused none ∷ ok 1 ∷ []

replies_run : receive_all replies none ≡ some false
unfolding receive_all receive
replies_run = refl

receive_all-first_example : receive_all replies none ≡ first_answer replies
receive_all-first_example = receive_all-first replies
