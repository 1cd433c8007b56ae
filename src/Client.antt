-- ===== src/Client.antt =====
-- The API client, clients/js/src/client.ts: its configuration and its transport. What is not its own
-- code is a `Platform`: `fetch` over a state of the world, the timer of `sleep`, the clock, `JSON.parse`
-- and `Date.parse`.
pub mod Url
pub mod Reads
pub mod Delivery
pub mod Media
pub mod Writes
pub mod Sync
pub mod Sending
use kiln_cms.Prelude.{
  ℕ, Bool, true, false, not, ◌&&◌, ◌||◌, Option, none, some, or_else, is_some, List, [], ◌∷◌, ◌++◌,
  map, Text, codes, starts, text_eq, is_empty, leb, if◌then◌else◌, Result, err, ok,
}
use kiln_cms.Json.{Json, null, str, lookup, assign}
use kiln_cms.JsonApi.{Params, Signal, timeout, not_false}
use kiln_cms.Errors.{
  KilnError, http, network, config, foreign, Thrown, http_error, parse_retry_after,
}
use kiln_cms.Client.Url.{query_string}

abbrev pub json_api : Text
json_api = codes "application/vnd.api+json"

abbrev pub plain_json : Text
plain_json = codes "application/json"

-- The rows that the server returns at most.
abbrev pub max_page_size : ℕ
max_page_size = 100

pub record KilnClient : Type 0 where
  pub base_url : Text
  pub api_key : Option Text
  pub timeout_ms : ℕ
  pub upload_timeout_ms : ℕ
  pub headers : List (Text × Text)
  pub image_transform_key : Option Text

pub record ClientOptions : Type 0 where
  pub base_url : Text
  pub api_key : Option Text
  pub timeout_ms : Option ℕ
  pub upload_timeout_ms : Option ℕ
  pub headers : Option (List (Text × Text))
  pub image_transform_key : Option Text

-- `baseUrl.replace(/\/+$/, "")`
unfoldable pub without_slashes : Text → Text
without_slashes [] = []
without_slashes (c ∷ s) =
    let rest = without_slashes s in if is_empty rest && is_slash c then [] else c ∷ rest
  where
    is_slash : ℕ → Bool
    is_slash c = text_eq (c ∷ []) (codes "/")

unfoldable pub create_client : ClientOptions → KilnClient
create_client options = record {
  base_url = without_slashes options.base_url;
  api_key = options.api_key;
  timeout_ms = or_else options.timeout_ms 15000;
  upload_timeout_ms = or_else options.upload_timeout_ms 300000;
  headers = or_else options.headers [];
  image_transform_key = options.image_transform_key;
}

-- A file: a name for its bytes, their number, and its own name where it is a `File`.
pub record Blob : Type 0 where
  pub bytes : ℕ
  pub size : ℕ
  pub file_name : Option Text

-- A part of a form: text, or a file under a name.
pub data FormPart : Type 0 where
  text_part : Text → FormPart
  file_part : Blob → Text → FormPart

-- What is sent: nothing, what `JSON.stringify` makes of a value, a form, or a file's bytes.
pub data Body : Type 0 where
  no_body : Body
  json : Json → Body
  form : List (Text × FormPart) → Body
  raw : Blob → Body

pub record Request : Type 0 where
  pub method : Text
  pub url : Text
  pub headers : List (Text × Text)
  pub signal : Signal
  pub body : Body

-- A response; reading its text may fail.
pub record Response : Type 0 where
  pub status : ℕ
  pub retry_after : Option Text
  pub text : Result Thrown Text

pub record Platform (S : Type 0) : Type 0 where
  pub fetch : Request → S → S × Result Thrown Response
  pub sleep : ℕ → Option Signal → S → S × Result Thrown (Unit {0})
  pub now : S → ℕ
  pub parse_json : Text → Option Json
  pub parse_date : Text → Option ℕ

-- A call: it acts on the world, and answers or throws.
abbrev pub Call : Type 0 → Type 0 → Type 0
Call S A = S → S × Result KilnError A

module _ {S : Type 0} where
  abbrev pub after :
      {A B : Type 0} → S × Result KilnError A → (A → Call S B) → S × Result KilnError B
  after (s, err e) next = (s, err e)
  after (s, ok a) next = next a s

  infixl 5 ◌>>=◌ ◌>>◌
  -- `await`
  abbrev pub ◌>>=◌ : {A B : Type 0} → Call S A → (A → Call S B) → Call S B
  (call >>= next) s = after (call s) next

  abbrev pub ◌>>◌ : {A B : Type 0} → Call S A → Call S B → Call S B
  (call >> next) s = after (call s) (λ _. next)

  abbrev pub return : {A : Type 0} → A → Call S A
  return a s = (s, ok a)

  abbrev pub throw : {A : Type 0} → KilnError → Call S A
  throw e s = (s, err e)

  abbrev pub caught :
      {A : Type 0} → S × Result KilnError A → (KilnError → Call S A) → S × Result KilnError A
  caught (s, err e) handler = handler e s
  caught (s, ok a) handler = (s, ok a)

  -- `try { … } catch (error) { … }`
  abbrev pub catch : {A : Type 0} → Call S A → (KilnError → Call S A) → Call S A
  catch call handler s = caught (call s) handler

-- The third argument of `send`.
pub record SendOptions : Type 0 where
  pub params : Params
  pub signal : Option Signal
  pub accept : Text
  pub content_type : Option Text
  pub body : Body
  pub upload : Bool
  pub anonymous : Bool
  pub headers : List (Text × Text)

unfoldable pub has_api_key : KilnClient → Bool
has_api_key client = elim client.api_key [ none ↦ false | some key ↦ not (is_empty key) ]

-- `{...object, ...more}`
abbrev pub spread : List (Text × Text) → List (Text × Text) → List (Text × Text)
spread es [] = es
spread es ((k, v) ∷ more) = spread (assign k v es) more

abbrev pub is_form : Body → Bool
is_form (form parts) = true
is_form _ = false

-- The key is in this header and nowhere else.
abbrev pub authorization : Text
authorization = codes "authorization"

abbrev pub assign? : Text → Option Text → List (Text × Text) → List (Text × Text)
assign? k none es = es
assign? k (some v) es = assign k v es

unfoldable pub headers_of : KilnClient → SendOptions → List (Text × Text)
headers_of client request =
    let merged =
      spread (spread ((codes "accept", request.accept) ∷ []) client.headers) request.headers in
    let typed =
      if is_form request.body
      then merged
      else assign? (codes "content-type") request.content_type merged in
    if has_api_key client && not request.anonymous
    then assign authorization (codes "Bearer " ++ or_else client.api_key []) typed
    else typed

unfoldable pub url_of : KilnClient → Text → Params → Text
url_of client path params =
    let query = query_string params in
    client.base_url ++ (path ++ (if is_empty query then [] else codes "?" ++ query))

unfoldable pub signal_of : KilnClient → SendOptions → ℕ → Signal
signal_of client request time = elim request.signal [
  | some signal ↦ signal
  | none ↦ timeout time (if request.upload then client.upload_timeout_ms else client.timeout_ms)
]

unfoldable pub request_of : KilnClient → Text → Text → SendOptions → ℕ → Request
request_of client method path request time = record {
  method = method;
  url = url_of client path request.params;
  headers = headers_of client request;
  signal = signal_of client request time;
  body = request.body;
}

unfoldable pub is_abort : Thrown → Bool
is_abort thrown = elim thrown.name [
  | none ↦ false
  | some name ↦ text_eq name (codes "AbortError") || text_eq name (codes "TimeoutError")
]

-- `response.ok`
abbrev pub is_ok : ℕ → Bool
is_ok status = leb 200 status && leb status 299

-- What `JSON.parse` throws.
abbrev pub syntax_error : Thrown
syntax_error = record { name = some (codes "SyntaxError"); reason = codes "not JSON" }

abbrev pub parsed_or : Option Json → Text → Json
parsed_or none text = str text
parsed_or (some j) text = j

abbrev pub missing_api_key : Text → Text → KilnError
missing_api_key method path =
    config
      (method
        ++ (codes " "
            ++ (path
                ++ codes
                    " writes to Kiln and needs an API key: pass `apiKey` to createClient() — a :read_write key on an editor (create/update/submit/upload) or admin (publish/unpublish/return/delete) account.")))
      (codes "missing_api_key")

unfoldable pub require_api_key : {S : Type 0} → KilnClient → Text → Text → Call S (Unit {0})
require_api_key client method path =
    if has_api_key client then return tt else throw (missing_api_key method path)

abbrev pub has_body : Body → Bool
has_body no_body = false
has_body _ = true

abbrev pub requested : Params → Option Signal → Text → SendOptions
requested params signal accept = record {
  params = params;
  signal = signal;
  accept = accept;
  content_type = none;
  body = no_body;
  upload = false;
  anonymous = false;
  headers = [];
}

module _ {S : Type 0} (platform : Platform S) where
  open platform use {fetch, now, parse_json, parse_date}

  unfoldable pub error_body : Response → Json
  error_body response = elim response.text [
    | err thrown ↦ parsed_or (parse_json []) []
    | ok text ↦ parsed_or (parse_json text) text
  ]

  -- The text of an answer that is ok.
  unfoldable pub success_body : Result Thrown Text → Call S Json
  success_body (err thrown) = throw (foreign thrown)
  success_body (ok text) =
      if is_empty text
      then return null
      else elim (parse_json text) [ none ↦ throw (foreign syntax_error) | some j ↦ return j ]

  unfoldable pub on_response : Text → Result Thrown Response → Call S Json
  on_response url (err thrown) s =
      if is_abort thrown then throw (foreign thrown) s else throw (network url thrown) s
  on_response url (ok response) s =
      if is_ok response.status
      then success_body response.text s
      else throw
          (http (
            http_error response.status url (error_body response)
              (parse_retry_after parse_date response.retry_after (now s))))
          s

  unfoldable pub send : KilnClient → Text → Text → SendOptions → Call S Json
  send client method path request s =
      let (t, outcome) = fetch (request_of client method path request (now s)) s in
      on_response (url_of client path request.params) outcome t

  unfoldable pub request : KilnClient → Text → Text → Params → Option Signal → Text → Call S Json
  request client method path params signal accept =
      send client method path (requested params signal accept)

  unfoldable pub write :
      KilnClient → Text → Text → Body → Option Signal → List (Text × Text) → Call S Json
  write client method path body signal headers = do
    require_api_key client method path
    send client method path (record {
      params = [];
      signal = signal;
      accept = json_api;
      content_type = if has_body body then some json_api else none;
      body = body;
      upload = false;
      anonymous = false;
      headers = headers;
    })

  unfoldable pub send_body : KilnClient → Text → Text → Body → Option Signal → Bool → Call S Json
  send_body client method path body signal upload =
      let mime = if starts (codes "/api/json/") path then json_api else plain_json in
      do
        require_api_key client method path
        send client method path (record {
          params = [];
          signal = signal;
          accept = mime;
          content_type = if is_form body then none else some mime;
          body = body;
          upload = upload;
          anonymous = false;
          headers = [];
        })
