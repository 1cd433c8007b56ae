-- ===== src/Bridge.antt =====
-- The visual-editing bridge, priv/static/bridge.js: its live socket with its retries, and the URLs that
-- it opens. Whether `new WebSocket` takes a URL is a parameter.
pub mod Alive
use kiln_cms.Prelude.{
  ℕ, suc, ◌+◌, ◌-◌, ◌*◌, ◌^◌, min, Bool, true, false, not, ◌&&◌, ◌||◌, Option, none, some, is_some,
  List, [], ◌∷◌, ◌++◌, Text, codes, starts, drop, text_eq, is_empty, leb, ltb, ◌==◌, if◌then◌else◌,
}
use kiln_cms.Client.Url.{encode_component}

-- The closure's variables. Sockets are numbered as they are made; the timer is kept as the time at
-- which it is due.
pub record Bridge : Type 0 where
  pub host : Text
  pub api_key : Option Text
  pub preview_token : Option Text
  pub socket : Option ℕ
  pub watching : Option (Text × Text)
  pub retry_timer : Option ℕ
  pub failures : ℕ
  pub made : ℕ

abbrev pub max_failures : ℕ
max_failures = 8

-- `replace(/\/$/, "")`
unfoldable pub without_slash : Text → Text
without_slash [] = []
without_slash (c ∷ s) =
    let rest = without_slash s in if is_empty s && c == b'/' then [] else c ∷ rest

-- `replace(/^http/, "ws")`
unfoldable pub as_socket : Text → Text
as_socket host = if starts (codes "http") host then codes "ws" ++ drop 4 host else host

abbrev pub credential : Option Text → Option Text → Text
credential (some token) key = codes "&preview_token=" ++ encode_component token
credential none (some key) = codes "&api_key=" ++ encode_component key
credential none none = []

unfoldable pub socket_url : Bridge → Text × Text → Text
socket_url b (type_, id) =
    without_slash (as_socket b.host)
    ++ (codes "/ws/bridge?type="
        ++ (encode_component type_
            ++ (codes "&id=" ++ (encode_component id ++ credential b.preview_token b.api_key))))

unfoldable pub clear_retry : Bridge → Bridge
clear_retry b = record b { retry_timer = none }

-- The handler of a socket that is closed here is taken off it.
unfoldable pub close_socket : Bridge → Bridge
close_socket b = record b { socket = none }

unfoldable pub schedule_reconnect : ℕ → Bridge → Bridge
schedule_reconnect time b =
    if not (is_some b.watching) || is_some b.retry_timer || leb max_failures b.failures
    then b
    else record b {
      retry_timer = some (time + min 30000 (1000 * 2 ^ b.failures));
      failures = suc b.failures;
    }

abbrev pub made_socket : Bool → Bridge → Bridge
made_socket true b = record b { socket = some b.made; made = suc b.made }
made_socket false b = b

abbrev pub open_for : (Text → Bool) → Option (Text × Text) → Bridge → Bridge
open_for accepts none b = b
open_for accepts (some doc) b =
    if is_empty b.host then b else made_socket (accepts (socket_url b doc)) (close_socket b)

unfoldable pub open_socket : (Text → Bool) → Bridge → Bridge
open_socket accepts b = open_for accepts b.watching b

unfoldable pub connect : (Text → Bool) → Text → Text → Bridge → Bridge
connect accepts type_ id b =
    if is_empty b.host || is_empty type_ || is_empty id
    then b
    else open_socket accepts (clear_retry (record b { watching = some (type_, id); failures = 0 }))

unfoldable pub disconnect : Bridge → Bridge
disconnect b = close_socket (clear_retry (record b { watching = none }))

-- `token || null`
abbrev pub or_null : Text → Option Text
or_null [] = none
or_null (c ∷ s) = some (c ∷ s)

unfoldable pub set_preview_token : (Text → Bool) → Text → Bridge → Bridge
set_preview_token accepts token b =
    let told = record b { preview_token = or_null token } in
    if is_some b.watching && not (is_some b.socket)
    then open_socket accepts (clear_retry (record told { failures = 0 }))
    else told

-- `configure`; an option that is left out is empty.
unfoldable pub configure : (Text → Bool) → Text → Text → Text → Bridge → Bridge
configure accepts host key token b =
    let hosted = if is_empty host then b else record b { host = host } in
    let keyed = if is_empty key then hosted else record hosted { api_key = some key } in
    if is_empty token then keyed else set_preview_token accepts token keyed

abbrev pub is_socket : Option ℕ → ℕ → Bool
is_socket none n = false
is_socket (some m) n = m == n

-- `onopen`; one that has been closed does not open.
unfoldable pub on_open : ℕ → Bridge → Bridge
on_open n b = if is_socket b.socket n then record b { failures = 0 } else b

-- `onclose`, where the socket has its handler still, which just the current one has.
unfoldable pub on_close : ℕ → ℕ → Bridge → Bridge
on_close n time b =
    if is_socket b.socket n then schedule_reconnect time (record b { socket = none }) else b

abbrev pub is_due : ℕ → Option ℕ → Bool
is_due time none = false
is_due time (some due) = leb due time

-- The retry, when its timer goes off.
unfoldable pub on_retry : (Text → Bool) → ℕ → Bridge → Bridge
on_retry accepts time b =
    if is_due time b.retry_timer then open_socket accepts (clear_retry b) else b

-- What happens to the bridge.
pub data BridgeEvent : Type 0 where
  connects : Text → Text → BridgeEvent
  disconnects : BridgeEvent
  takes_token : Text → BridgeEvent
  is_configured : Text → Text → Text → BridgeEvent
  socket_opens timer_rings : ℕ → BridgeEvent
  socket_closes : ℕ → ℕ → BridgeEvent

unfoldable pub bridge_step : (Text → Bool) → BridgeEvent → Bridge → Bridge
bridge_step accepts (connects type_ id) b = connect accepts type_ id b
bridge_step accepts disconnects b = disconnect b
bridge_step accepts (takes_token token) b = set_preview_token accepts token b
bridge_step accepts (is_configured host key token) b = configure accepts host key token b
bridge_step accepts (socket_opens n) b = on_open n b
bridge_step accepts (socket_closes n time) b = on_close n time b
bridge_step accepts (timer_rings time) b = on_retry accepts time b

unfoldable pub bridge_run : (Text → Bool) → List BridgeEvent → Bridge → Bridge
bridge_run accepts [] b = b
bridge_run accepts (e ∷ es) b = bridge_run accepts es (bridge_step accepts e b)

-- A message that asks for a refresh: it is heeded from the console's origin alone.
unfoldable pub heeds_refresh : Text → Text → Text → Text → Bool
heeds_refresh host_origin from source event =
    not (is_empty host_origin)
    && text_eq from host_origin
    && text_eq source (codes "kiln-console")
    && text_eq event (codes "refresh")

-- What an element says of its field.
pub record FieldPayload : Type 0 where
  pub type_ : Text
  pub id : Text
  pub slug : Text
  pub field : Text
  pub block : Text
  pub locale : Text

abbrev pub query_of : List Text → Text
query_of [] = []
query_of (q ∷ []) = codes "?" ++ q
query_of (q ∷ r ∷ _) = codes "?" ++ (q ++ (codes "&" ++ r))

abbrev pub query_part : Text → Text → List Text
query_part name [] = []
query_part name (c ∷ s) = (name ++ encode_component (c ∷ s)) ∷ []

-- The URL of `openEditor`; what is missing is empty.
unfoldable pub editor_url : Text → FieldPayload → Text
editor_url host p =
    if is_empty p.block
      && not (is_empty p.field)
      && not (text_eq p.field (codes "title"))
      && not (is_empty p.id)
    then without_slash host
      ++ (codes "/editor/content/"
          ++ (encode_component p.type_
              ++ (codes "/"
                  ++ (encode_component p.id ++ (codes "?focus=" ++ encode_component p.field)))))
    else without_slash host
      ++ (codes "/editor/site/"
          ++ (encode_component p.type_
              ++ (codes "/"
                  ++ (encode_component p.slug
                      ++ query_of (
                          query_part (codes "locale=") p.locale
                          ++ query_part (codes "focus=") p.block)))))
