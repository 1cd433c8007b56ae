-- ===== src/Liveness.antt =====
-- assets/js/liveness.js: the watchdog that notices a line whose other end is gone.
-- Times are milliseconds of `Date.now()`, read once for each event. A comparison of a difference is
-- written with a sum, so that a clock that runs backwards means here what it means in the source.
pub mod Watching
pub mod Late
use kiln_cms.Prelude.{
  ℕ, ◌+◌, Bool, true, false, ◌&&◌, ◌||◌, not, Option, none, some, List, [], ◌∷◌, ◌++◌, ltb,
  if◌then◌else◌,
}

-- `clock`; a browser test may set other values.
pub record Timing : Type 0 where
  pub ask : ℕ
  pub quiet : ℕ
  pub revive : ℕ
  pub late : ℕ

abbrev pub default_timing : Timing
default_timing = record { ask = 4000; quiet = 8000; revive = 10_000; late = 5000 }

-- The classes and channel states that the page reads at one moment.
pub data ChannelState : Type 0 where
  closed errored joined joining leaving : ChannelState

pub record Page : Type 0 where
  pub has_socket : Bool
  pub has_main : Bool
  pub connected : Bool
  pub clean : Bool
  pub channel : Option ChannelState  -- of the main view; none where it has no view or no channel
  pub live : Bool
  pub in_front : Bool

abbrev pub is_joined : ChannelState → Bool
is_joined joined = true
is_joined _ = false

-- `joined`: a missing view or channel counts as joined
abbrev pub view_joined : Option ChannelState → Bool
view_joined none = true
view_joined (some c) = is_joined c

pub data Mark : Type 0 where
  now never soon : Mark

-- `readTheLine`, with the silence given as the time last heard and the time now
abbrev pub is_quiet : Timing → Page → ℕ → ℕ → Bool
is_quiet t p heard time = p.connected && not p.clean && p.in_front && ltb (heard + t.quiet) time

abbrev pub is_standing : Page → Bool
is_standing p = p.connected && p.live && view_joined p.channel

unfoldable pub read_the_line : Timing → Page → ℕ → ℕ → Mark
read_the_line t p heard time =
    if is_quiet t p heard time then now else if is_standing p then never else soon

-- The variables of `watchLiveness`, and the class `phx-late` on the root.
pub record Watch : Type 0 where
  pub heard : ℕ
  pub asked : ℕ
  pub waiting : Bool
  pub revived_at : ℕ
  pub late_timer : Option ℕ  -- when the timer set last is due; firing does not reset the variable
  pub late : Bool

-- What the page does to the line.
pub data Action : Type 0 where
  ping : ℕ → Action
  rebuild : ℕ → Action  -- `disconnect` followed by `connect`, at that time
  phx_error : ℕ → Action  -- on the channel with that number

unfoldable pub start : ℕ → Watch
start time = record {
  heard = time;
  asked = 0;
  waiting = false;
  revived_at = 0;
  late_timer = none;
  late = false;
}

unfoldable pub forget_the_ask : ℕ → Watch → Watch
forget_the_ask time w = record w { heard = time; asked = 0; waiting = false }

unfoldable pub ask : Timing → Page → ℕ → Watch → Watch × List Action
ask t p time w =
    if not p.in_front || w.waiting || ltb time (w.asked + t.ask)
    then (w, [])
    else (record w { asked = time; waiting = true }, ping time ∷ [])

unfoldable pub revive : Timing → ℕ → Watch → Watch × List Action
unfolding forget_the_ask
revive t time w =
    if ltb time (w.revived_at + t.revive)
    then (w, [])
    else (forget_the_ask time (record w { revived_at = time }), rebuild time ∷ [])

abbrev pub arm : ℕ → Option ℕ → Option ℕ
arm due none = some due
arm due (some d) = some d

unfoldable pub say : Timing → Mark → ℕ → Watch → Watch
say t now time w = record w { late_timer = none; late = true }
say t never time w = record w { late_timer = none; late = false }
say t soon time w = record w { late_timer = arm (time + t.late) w.late_timer }

-- the first half of `watchTheLine`
unfoldable pub listen : Timing → Page → ℕ → Watch → Watch × List Action
unfolding forget_the_ask ask
listen t p time w =
    if not p.connected || p.clean then (forget_the_ask time w, []) else ask t p time w

unfoldable pub watch_the_line : Timing → Page → ℕ → Watch → Watch × List Action
unfolding listen say read_the_line revive
watch_the_line t p time w =
    if not p.has_socket || not p.has_main
    then (say t never time w, [])
    else let (w', asks) = listen t p time w in
      let said = say t (read_the_line t p w'.heard time) time w' in
      if is_quiet t p w'.heard time
      then (let (w'', acts) = revive t time said in (w'', asks ++ acts))
      else (said, asks)

unfoldable pub back_in_front : Timing → Page → ℕ → Watch → Watch × List Action
unfolding watch_the_line forget_the_ask
back_in_front t p time w = watch_the_line t p time (if p.in_front then forget_the_ask time w else w)

-- `dropTheViewsOfTheOldLine`: the channels are numbered in their order on the socket
unfoldable pub drop_views : ℕ → List ChannelState → List Action
drop_views i [] = []
drop_views i (c ∷ cs) =
    let rest = drop_views (i + 1) cs in if is_joined c then phx_error i ∷ rest else rest

-- What can happen to the page.
pub data Event : Type 0 where
  tick : Page → ℕ → Event
  back : Page → ℕ → Event
  pong : ℕ → Event
  message : ℕ → Event
  opened : List ChannelState → ℕ → Event
  late_due : Event

unfoldable pub step : Timing → Event → Watch → Watch × List Action
unfolding watch_the_line back_in_front forget_the_ask drop_views
step t (tick p time) w = watch_the_line t p time w
step t (back p time) w = back_in_front t p time w
step t (pong time) w = (record w { waiting = false; heard = time }, [])
step t (message time) w = (record w { heard = time }, [])
step t (opened cs time) w = (forget_the_ask time w, drop_views 0 cs)
step t late_due w = elim w.late_timer [ none ↦ (w, []) | some _ ↦ (record w { late = true }, []) ]

unfoldable pub run : Timing → List Event → Watch → Watch × List Action
run t [] w = (w, [])
run t (e ∷ es) w =
    let (w', acts) = step t e w in let (w'', more) = run t es w' in (w'', acts ++ more)
