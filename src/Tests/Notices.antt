-- ===== src/Tests/Notices.antt =====
-- The theorems on assets/js/liveness.js and assets/js/connection_notice.js at concrete inputs.
use kiln_cms.Prelude.{◌≡◌, ◌↔◌, refl, true, false, ◌||◌, some, List, [], ◌∷◌, arith}
use kiln_cms.Liveness.{
  Page, Event, tick, back, pong, joined, errored, opened, default_timing, start, step, run, ping,
  rebuild, phx_error,
}
use kiln_cms.Liveness.Watching.{rebuilds, Spaced, run-Spaced, IsDead, tick-IsDead_iff, run_kept}
use kiln_cms.Liveness.Late.{IsCalm, run-IsCalm}
use kiln_cms.ConnectionNotice.{Look, client, server, watch}
use kiln_cms.ConnectionNotice.Grace.{
  shown, stretch, Lasted, TimerFits, watch-shown_iff, watch-TimerFits,
}

abbrev healthy : Page
healthy = record {
  has_socket = true;
  has_main = true;
  connected = true;
  clean = false;
  channel = some joined;
  live = true;
  in_front = true;
}

-- The line goes dead after the first answer: it is rebuilt once, and again ten seconds later.
abbrev dead_line : List Event
dead_line =
    tick healthy 20_000
    ∷ pong 20_100
    ∷ tick healthy 24_000
    ∷ tick healthy 28_200
    ∷ tick healthy 29_000
    ∷ tick healthy 37_500
    ∷ tick healthy 39_000
    ∷ []

dead_line_runs :
    (run default_timing dead_line (start 20_000)).1
    ≡ ping 20_000 ∷ ping 24_000 ∷ rebuild 28_200 ∷ ping 29_000 ∷ rebuild 39_000 ∷ []
unfolding run step start
dead_line_runs = refl

drop_runs :
    (step default_timing (opened (joined ∷ errored ∷ joined ∷ []) 9000) (start 20_000)).1
    ≡ phx_error 0 ∷ phx_error 2 ∷ []
unfolding step
drop_runs = refl

run-Spaced_example : Spaced 10_000 0 (rebuilds (run default_timing dead_line (start 20_000)).1)
unfolding start
run-Spaced_example = run-Spaced default_timing dead_line (start 20_000)

tick-IsDead_iff_example :
    (rebuilds (step default_timing (tick healthy 28_200) (start 20_000)).1 ≡ 28_200 ∷ [])
    ↔ IsDead default_timing healthy (start 20_000) 28_200
tick-IsDead_iff_example = tick-IsDead_iff default_timing healthy 28_200 (start 20_000)

abbrev talking : List Event
talking = tick healthy 24_500 ∷ pong 25_000 ∷ tick healthy 33_000 ∷ back healthy 90_000 ∷ []

run_kept_example : rebuilds (run default_timing talking (start 20_000)).1 ≡ []
unfolding step start
run_kept_example = run_kept default_timing talking (start 20_000) (omega arith)

run-IsCalm_example : IsCalm (run default_timing talking (start 20_000)).0
unfolding step start
run-IsCalm_example =
    run-IsCalm default_timing talking (start 20_000) (ground arith)
      (record { unmarked = refl; idle = refl })

abbrev looks : List Look
looks =
    record { rung = true; trouble = some server; time = 3500 }
    ∷ record { rung = false; trouble = some client; time = 1000 }
    ∷ []

looks_show : shown server (watch 2500 looks) ≡ true
unfolding watch
looks_show = refl

abbrev later_look : Look
later_look = record { rung = false; trouble = some client; time = 4000 }

watch-shown_iff_example :
    (shown client (watch 2500 (later_look ∷ looks)) ≡ true)
    ↔ ((later_look.trouble ≡ some client) × Lasted 2500 (stretch (later_look ∷ looks)) 4000)
watch-shown_iff_example = watch-shown_iff 2500 client later_look looks

watch-TimerFits_example :
    let n = watch 2500 looks in
    TimerFits 2500 (stretch looks) n.timer (n.client_shown || n.server_shown)
watch-TimerFits_example = watch-TimerFits 2500 looks
