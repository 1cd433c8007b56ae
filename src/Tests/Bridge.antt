-- ===== src/Tests/Bridge.antt =====
-- Runs of the bridge.
use kiln_cms.Prelude.{◌≡◌, refl, Bool, true, none, some, List, [], ◌∷◌, Text, codes}
use kiln_cms.Bridge.{
  Bridge, BridgeEvent, connects, takes_token, socket_closes, timer_rings, bridge_step, bridge_run,
  connect, open_socket, socket_url, without_slash, as_socket, clear_retry, close_socket,
  schedule_reconnect, set_preview_token, on_close, on_retry, editor_url,
}
use kiln_cms.Client.Url.{encode_component}
use kiln_cms.Transform.Version.{utf8}
use kiln_cms.Bridge.Alive.{IsAlive, bridge_run-IsAlive}

abbrev cms : Bridge
cms = record {
  host = codes "https://cms.example.com/";
  api_key = some (codes "k");
  preview_token = none;
  socket = none;
  watching = none;
  retry_timer = none;
  failures = 0;
  made = 0;
}

abbrev takes_all : Text → Bool
takes_all _ = true

socket_url_test :
    socket_url cms (codes "post", codes "7")
    ≡ codes "wss://cms.example.com/ws/bridge?type=post&id=7&api_key=k"
unfolding socket_url without_slash as_socket encode_component utf8
socket_url_test = refl

-- The server refuses twice, the second retry waits, and a new token is handed over.
abbrev refused : List BridgeEvent
refused =
    connects (codes "post") (codes "7")
    ∷ socket_closes 0 100
    ∷ timer_rings 1100
    ∷ socket_closes 1 1200
    ∷ []

refused_waits : (bridge_run takes_all refused cms).retry_timer ≡ some 3200
unfolding bridge_run bridge_step connect open_socket clear_retry close_socket schedule_reconnect
    on_close on_retry
refused_waits = refl

refreshed :
    (bridge_run takes_all (takes_token (codes "t") ∷ []) (bridge_run takes_all refused cms)).socket
    ≡ some 2
unfolding bridge_run bridge_step connect open_socket clear_retry close_socket schedule_reconnect
    on_close on_retry set_preview_token
refreshed = refl

editor_url_test :
    editor_url (codes "https://cms.example.com/") (record {
      type_ = codes "post";
      id = codes "7";
      slug = codes "a b";
      field = codes "body";
      block = codes "b1";
      locale = codes "fr";
    })
    ≡ codes "https://cms.example.com/editor/site/post/a%20b?locale=fr&focus=b1"
unfolding editor_url without_slash encode_component utf8
editor_url_test = refl

cms-IsAlive : IsAlive cms
cms-IsAlive = record { lives = refl; hosted = λ _. refl }

bridge_run-IsAlive_example : IsAlive (bridge_run takes_all refused cms)
bridge_run-IsAlive_example = bridge_run-IsAlive takes_all (λ _. refl) refused cms cms-IsAlive
