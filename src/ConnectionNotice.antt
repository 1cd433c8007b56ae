-- ===== src/ConnectionNotice.antt =====
-- assets/js/connection_notice.js: the notices "no internet" and "something went wrong", with their
-- grace period. Times are milliseconds; a comparison of a difference is written with a sum.
pub mod Grace
use kiln_cms.Prelude.{
  ℕ, ◌+◌, ◌-◌, Bool, true, false, not, Option, none, some, List, [], ◌∷◌, leb, if◌then◌else◌,
}

pub data Trouble : Type 0 where
  client server : Trouble

-- The classes of the main view, where there is one.
pub record MainView : Type 0 where
  pub server_error : Bool
  pub client_error : Bool

unfoldable pub trouble_of : Option MainView → Option Trouble
trouble_of none = none
trouble_of (some m) =
    if m.server_error then some server else if m.client_error then some client else none

-- `noticeFor`, with the time in trouble given as the time it began and the time now
unfoldable pub notice_for : Option Trouble → ℕ → ℕ → ℕ → Option Trouble
notice_for none since time grace = none
notice_for (some k) since time grace = if leb (since + grace) time then some k else none

-- The variables of `watchConnectionNotices`, and which of the two notices is not hidden.
pub record Notices : Type 0 where
  pub trouble_since : Option ℕ
  pub timer : Option ℕ  -- when the timer is due
  pub client_shown : Bool
  pub server_shown : Bool

unfoldable pub start : Notices
start = record { trouble_since = none; timer = none; client_shown = false; server_shown = false }

abbrev pub is_client : Option Trouble → Bool
is_client (some client) = true
is_client _ = false

abbrev pub is_server : Option Trouble → Bool
is_server (some server) = true
is_server _ = false

-- `show`: each notice is hidden unless it is of the kind shown
unfoldable pub show : Option Trouble → Notices → Notices
show kind n = record n { client_shown = is_client kind; server_shown = is_server kind }

abbrev pub since_or : Option ℕ → ℕ → ℕ
since_or none time = time
since_or (some s) time = s

-- `if (!kind && timer === null) timer = setTimeout(…, grace - (now - troubleSince))`
abbrev pub arm : Option Trouble → Option ℕ → ℕ → Option ℕ
arm none none due = some due
arm _ timer due = timer

unfoldable pub check : ℕ → Option Trouble → ℕ → Notices → Notices
unfolding notice_for show
check grace none time n = show none (record n { trouble_since = none; timer = none })
check grace (some k) time n =
    let since = since_or n.trouble_since time in
    let kind = notice_for (some k) since time grace in
    show kind (record n {
      trouble_since = some since;
      timer = arm kind n.timer (time + (grace + since - time));
    })

-- The timer's callback: the variable is cleared, and the page is looked at again.
unfoldable pub ring : ℕ → Option Trouble → ℕ → Notices → Notices
unfolding check
ring grace trouble time n = check grace trouble time (record n { timer = none })

-- What happens: the container changes, or the timer rings, with the trouble found then.
pub record Look : Type 0 where
  pub rung : Bool
  pub trouble : Option Trouble
  pub time : ℕ

unfoldable pub look : ℕ → Look → Notices → Notices
unfolding check ring
look grace l n = if l.rung then ring grace l.trouble l.time n else check grace l.trouble l.time n

-- The looks, the latest first.
unfoldable pub watch : ℕ → List Look → Notices
unfolding look start
watch grace [] = start
watch grace (l ∷ ls) = look grace l (watch grace ls)

-- What the "Try again" button does: nothing, load the page again, or build the line again.
pub data Remedy : Type 0 where
  ignore reload reconnect : Remedy

unfoldable pub retry : Option MainView → Bool → Remedy
unfolding trouble_of
retry main has_socket = elim (trouble_of main) [
  | none ↦ ignore
  | some server ↦ reload
  | some client ↦ if has_socket then reconnect else ignore
]
