-- ===== src/Bridge/Alive.antt =====
-- The live socket is kept alive.
use kiln_cms.Prelude.{
  ℕ, ◌≡◌, inl, inr, refl, Bool, true, false, not, ◌&&◌, ◌||◌, Option, none, some, is_some, List, [],
  ◌∷◌, Text, is_empty, leb, Bool-cases, arith,
}
use kiln_cms.Bridge.{
  Bridge, max_failures, socket_url, clear_retry, close_socket, schedule_reconnect, made_socket,
  open_for, open_socket, connect, disconnect, or_null, set_preview_token, configure, is_socket,
  on_open, on_close, is_due, on_retry, BridgeEvent, connects, disconnects, takes_token,
  is_configured, socket_opens, socket_closes, timer_rings, bridge_step, bridge_run,
}

-- Nothing is watched: there is no socket, and no retry waits. A document is watched: there is a
-- socket, or a retry waits, never both; or eight retries have failed.
abbrev pub is_live : Option (Text × Text) → Option ℕ → Option ℕ → ℕ → Bool
is_live none none none _ = true
is_live none none (some _) _ = false
is_live none (some _) _ _ = false
is_live (some _) (some _) none _ = true
is_live (some _) (some _) (some _) _ = false
is_live (some _) none (some _) _ = true
is_live (some _) none none failures = leb max_failures failures

pub record IsAlive (b : Bridge) : Type 0 where
  pub lives : is_live b.watching b.socket b.retry_timer b.failures ≡ true
  pub hosted : is_some b.watching ≡ true → is_empty b.host ≡ false

lives-opened :
    (w : Option (Text × Text)) (n f : ℕ) → is_some w ≡ true → is_live w (some n) none f ≡ true
lives-opened (some _) n f e = refl
lives-opened none n f e = e

lives-waiting :
    (w : Option (Text × Text)) (n f : ℕ) → is_some w ≡ true → is_live w none (some n) f ≡ true
lives-waiting (some _) n f e = refl
lives-waiting none n f e = e

lives-given_up :
    (w : Option (Text × Text)) (f : ℕ)
    → is_some w ≡ true
    → leb max_failures f ≡ true
    → is_live w none none f ≡ true
lives-given_up (some _) f e le = le
lives-given_up none f e le = refl

-- A bridge with a socket, or whose retry waits, watches a document.
lives-watching :
    (w : Option (Text × Text)) (s t : Option ℕ) (f : ℕ)
    → is_live w s t f ≡ true
    → is_some s || is_some t ≡ true
    → is_some w ≡ true
lives-watching (some _) s t f h e = refl
lives-watching none (some _) t f h e = h
lives-watching none none (some _) f h e = h
lives-watching none none none f h e = e

lives-alone :
    (w : Option (Text × Text)) (s t : Option ℕ) (f : ℕ)
    → is_live w s t f ≡ true
    → is_some s ≡ true
    → t ≡ none
lives-alone w s none f h e = refl
lives-alone (some _) (some _) (some _) f h e = ground (arith, h)
lives-alone (some _) none (some _) f h e = ground (arith, e)
lives-alone none (some _) (some _) f h e = ground (arith, h)
lives-alone none none (some _) f h e = ground (arith, h)

-- The count of failures matters just where nothing is left.
lives-reset :
    (w : Option (Text × Text)) (s t : Option ℕ) (f g : ℕ)
    → is_live w s t f ≡ true
    → is_some s ≡ true
    → is_live w s t g ≡ true
lives-reset (some _) (some _) none f g h e = refl
lives-reset (some _) (some _) (some _) f g h e = h
lives-reset (some _) none t f g h e = ground (arith, e)
lives-reset none (some _) t f g h e = h
lives-reset none none t f g h e = ground (arith, e)

is_socket-some : (s : Option ℕ) (n : ℕ) → is_socket s n ≡ true → is_some s ≡ true
is_socket-some (some _) n e = refl
is_socket-some none n e = e

is_due-some : (time : ℕ) (t : Option ℕ) → is_due time t ≡ true → is_some t ≡ true
is_due-some time (some _) e = refl
is_due-some time none e = e

module _ (accepts : Text → Bool) (all_accepted : (url : Text) → accepts url ≡ true) where
  made_socket-IsAlive :
      (fits : Bool) (b : Bridge)
      → fits ≡ true
      → is_some b.watching ≡ true
      → is_empty b.host ≡ false
      → b.retry_timer ≡ none
      → IsAlive (made_socket fits b)
  made_socket-IsAlive true b fits w full idle = record {
    lives = rw idle (lives-opened b.watching b.made b.failures w);
    hosted = λ _. full;
  }
  made_socket-IsAlive false b fits w full idle = ground (arith, fits)

  open_for-IsAlive :
      (doc : Option (Text × Text)) (b : Bridge)
      → is_some doc ≡ true
      → is_some b.watching ≡ true
      → is_empty b.host ≡ false
      → b.retry_timer ≡ none
      → IsAlive (open_for accepts doc b)
  unfolding close_socket
  open_for-IsAlive (some doc) b d w full idle = rw full (
      made_socket-IsAlive (accepts (socket_url b doc)) (close_socket b)
        (all_accepted (socket_url b doc)) w full idle)
  open_for-IsAlive none b d w full idle = ground (arith, d)

  -- A bridge that watches a document and knows its host is alive once it has opened.
  open_socket-IsAlive :
      (b : Bridge)
      → is_some b.watching ≡ true
      → is_empty b.host ≡ false
      → IsAlive (open_socket accepts (clear_retry b))
  unfolding open_socket clear_retry
  open_socket-IsAlive b w full = open_for-IsAlive b.watching (clear_retry b) w w full refl

  connect-IsAlive :
      (type_ id : Text) (b : Bridge) → IsAlive b → IsAlive (connect accepts type_ id b)
  unfolding connect
  connect-IsAlive type_ id b h =
      elim (Bool-cases (is_empty b.host || is_empty type_ || is_empty id)) [
        | inl lacks ↦ rw lacks h
        | inr full ↦ rw full (
            open_socket-IsAlive (record b { watching = some (type_, id); failures = 0 }) refl
              (ground (arith, full)))
      ]

  disconnect-IsAlive : (b : Bridge) → IsAlive (disconnect b)
  unfolding disconnect close_socket clear_retry
  disconnect-IsAlive b = record { lives = refl; hosted = λ w. ground (arith, w) }

  set_preview_token-IsAlive :
      (token : Text) (b : Bridge) → IsAlive b → IsAlive (set_preview_token accepts token b)
  unfolding set_preview_token
  set_preview_token-IsAlive token b h =
      elim (Bool-cases (is_some b.watching && not (is_some b.socket))) [
        | inl down ↦
            let w : is_some b.watching ≡ true = ground (arith, down) in
            rw down (
              open_socket-IsAlive (record b { preview_token = or_null token; failures = 0 }) w
                (h.hosted w))
        | inr up ↦ rw up (record { lives = h.lives; hosted = h.hosted })
      ]

  on_retry-IsAlive : (time : ℕ) (b : Bridge) → IsAlive b → IsAlive (on_retry accepts time b)
  unfolding on_retry
  on_retry-IsAlive time b h = elim (Bool-cases (is_due time b.retry_timer)) [
    | inl due ↦
        let t : is_some b.retry_timer ≡ true = is_due-some time b.retry_timer due in
        let w : is_some b.watching ≡ true =
          lives-watching b.watching b.socket b.retry_timer b.failures h.lives
            (rw t (ground arith)) in
        rw due (open_socket-IsAlive b w (h.hosted w))
    | inr early ↦ rw early h
  ]

on_open-IsAlive : (n : ℕ) (b : Bridge) → IsAlive b → IsAlive (on_open n b)
unfolding on_open
on_open-IsAlive n b h = elim (Bool-cases (is_socket b.socket n)) [
  | inl current ↦ rw current (record {
    lives =
        lives-reset b.watching b.socket b.retry_timer b.failures 0 h.lives
          (is_socket-some b.socket n current);
    hosted = h.hosted;
  })
  | inr old ↦ rw old h
]

-- A bridge that has lost its socket retries, or has given up.
schedule_reconnect-IsAlive :
    (time : ℕ) (b : Bridge)
    → is_some b.watching ≡ true
    → b.socket ≡ none
    → b.retry_timer ≡ none
    → is_empty b.host ≡ false
    → IsAlive (schedule_reconnect time b)
unfolding schedule_reconnect
schedule_reconnect-IsAlive time b w down idle full =
    elim (Bool-cases (leb max_failures b.failures)) [
      | inl spent ↦
          rw (w, idle, spent)
            (record {
              lives = rw down (lives-given_up b.watching b.failures w spent);
              hosted = λ _. full;
            })
      | inr left ↦
          rw (w, idle, left)
            (record { lives = rw down (lives-waiting b.watching _ _ w); hosted = λ _. full })
    ]

on_close-IsAlive : (n time : ℕ) (b : Bridge) → IsAlive b → IsAlive (on_close n time b)
unfolding on_close
on_close-IsAlive n time b h = elim (Bool-cases (is_socket b.socket n)) [
  | inl current ↦
      let s : is_some b.socket ≡ true = is_socket-some b.socket n current in
      let w : is_some b.watching ≡ true =
        lives-watching b.watching b.socket b.retry_timer b.failures h.lives (rw s refl) in
      rw current (
        schedule_reconnect-IsAlive time (record b { socket = none }) w refl
          (lives-alone b.watching b.socket b.retry_timer b.failures h.lives s) (h.hosted w))
  | inr old ↦ rw old h
]

module _ (accepts : Text → Bool) (all_accepted : (url : Text) → accepts url ≡ true) where
  configure-IsAlive :
      (host key token : Text) (b : Bridge)
      → IsAlive b
      → IsAlive (configure accepts host key token b)
  unfolding configure
  configure-IsAlive [] [] [] b h = h
  configure-IsAlive [] [] (c ∷ token) b h = set_preview_token-IsAlive accepts all_accepted _ b h
  configure-IsAlive [] (k ∷ key) [] b h = record { lives = h.lives; hosted = h.hosted }
  configure-IsAlive [] (k ∷ key) (c ∷ token) b h =
      set_preview_token-IsAlive accepts all_accepted _ _
        (record { lives = h.lives; hosted = h.hosted })
  configure-IsAlive (a ∷ host) [] [] b h = record { lives = h.lives; hosted = λ _. refl }
  configure-IsAlive (a ∷ host) [] (c ∷ token) b h =
      set_preview_token-IsAlive accepts all_accepted _ _
        (record { lives = h.lives; hosted = λ _. refl })
  configure-IsAlive (a ∷ host) (k ∷ key) [] b h = record { lives = h.lives; hosted = λ _. refl }
  configure-IsAlive (a ∷ host) (k ∷ key) (c ∷ token) b h =
      set_preview_token-IsAlive accepts all_accepted _ _
        (record { lives = h.lives; hosted = λ _. refl })

  bridge_step-IsAlive :
      (e : BridgeEvent) (b : Bridge) → IsAlive b → IsAlive (bridge_step accepts e b)
  unfolding bridge_step
  bridge_step-IsAlive (connects type_ id) b h = connect-IsAlive accepts all_accepted type_ id b h
  bridge_step-IsAlive disconnects b h = disconnect-IsAlive accepts all_accepted b
  bridge_step-IsAlive (takes_token token) b h =
      set_preview_token-IsAlive accepts all_accepted token b h
  bridge_step-IsAlive (is_configured host key token) b h = configure-IsAlive host key token b h
  bridge_step-IsAlive (socket_opens n) b h = on_open-IsAlive n b h
  bridge_step-IsAlive (socket_closes n time) b h = on_close-IsAlive n time b h
  bridge_step-IsAlive (timer_rings time) b h = on_retry-IsAlive accepts all_accepted time b h

  -- Where `new WebSocket` takes every URL, each sequence of events (`connect`, `disconnect`, a new
  -- token, `configure`, a socket that opens or closes, a timer that goes off) keeps the bridge alive.
  -- While it watches no document, it has no socket and no retry waits. While it watches one, its host
  -- is known, and there is a socket or a retry waits, never both, or neither and the count of
  -- failures has reached eight.
  pub bridge_run-IsAlive :
      (es : List BridgeEvent) (b : Bridge) → IsAlive b → IsAlive (bridge_run accepts es b)
  unfolding bridge_run
  bridge_run-IsAlive [] b h = h
  bridge_run-IsAlive (e ∷ es) b h =
      bridge_run-IsAlive es (bridge_step accepts e b) (bridge_step-IsAlive e b h)
