-- ===== src/Errors.antt =====
-- The errors of clients/js/src/errors.ts: what an answer outside 2xx becomes, and what callers read
-- from it.
pub mod ByField
pub mod RetryAfter
use kiln_cms.Prelude.{
  ℕ, suc, ◌+◌, ◌-◌, ◌*◌, ◌/◌, Bool, true, false, not, ◌&&◌, ◌||◌, Option, none, some, or_else, List,
  [], ◌∷◌, ◌++◌, map, keep, any, Text, codes, is_digit, all, show, read, starts, length, drop,
  text_eq, is_empty, trim, trim_start, trim_end, is_some, ◌==◌, leb, if◌then◌else◌, Result, err, ok,
  ◌>>=◌, ◌>>◌,
}
use kiln_cms.Json.{
  Json, null, bool, number, str, arr, obj, items, entries, lookup, assign, get, get?, is_object,
  string_of, present, is_truthy, text_of,
}

-- The subclasses of `KilnHttpError`, and the class itself.
pub data HttpKind : Type 0 where
  auth not_found validation conflict rate_limit server other : HttpKind

pub record KilnHttpError : Type 0 where
  pub kind : HttpKind
  pub status : ℕ
  pub url : Text
  pub body : Json
  pub message : Text
  pub code : Option Json
  pub errors : List Json
  pub retry_after : Option ℕ

-- The errors in a body: those entries of its array `errors` that are objects.
unfoldable pub error_objects : Json → List Json
error_objects body = elim (get (codes "errors") body) [
  | some (arr js) ↦ keep is_object (items js)
  | _ ↦ []
]

-- `errors[0]`
abbrev pub first {ℓ} : {A : Type ℓ} → List A → Option A
first [] = none
first (x ∷ xs) = some x

-- ` — ${detail}`, where there is one
abbrev pub detail_suffix : Option Json → Text
detail_suffix none = []
detail_suffix (some j) = if is_truthy j then codes " — " ++ text_of j else []

-- The constructor of `KilnHttpError`, which all its subclasses share.
unfoldable pub new_http_error : HttpKind → ℕ → Text → Json → Option ℕ → KilnHttpError
new_http_error kind status url body retry_after =
    let errors = error_objects body in
    record {
      kind = kind;
      status = status;
      url = url;
      body = body;
      message =
          codes "Kiln request failed: "
          ++ (show status
              ++ (codes " " ++ (url ++ detail_suffix (get? (codes "detail") (first errors)))));
      code = get? (codes "code") (first errors);
      errors = errors;
      retry_after = retry_after;
    }

unfoldable pub kind_of : ℕ → HttpKind
kind_of status =
    if status == 401 || status == 403
    then auth
    else if status == 404
    then not_found
    else if status == 400 || status == 422
    then validation
    else if status == 409
    then conflict
    else if status == 429
    then rate_limit
    else if leb 500 status
    then server
    else other

unfoldable pub http_error : ℕ → Text → Json → Option ℕ → KilnHttpError
http_error status url body retry_after = new_http_error (kind_of status) status url body retry_after

-- `error.source?.pointer`, where it is a string
unfoldable pub pointer_of : Json → Option Text
pointer_of e = string_of (get? (codes "pointer") (get (codes "source") e))

-- `KilnValidationError.pointers`
unfoldable pub pointers_from : List Json → List Text
pointers_from [] = []
pointers_from (e ∷ es) = elim (pointer_of e) [
  | none ↦ pointers_from es
  | some pointer ↦ pointer ∷ pointers_from es
]

unfoldable pub pointers : KilnHttpError → List Text
pointers error = pointers_from error.errors

-- `pointer.replace(/^\/data\/attributes\//, "")`
unfoldable pub field_of : Text → Text
field_of pointer =
    let prefix = codes "/data/attributes/" in
    if starts prefix pointer then drop (length prefix) pointer else pointer

-- `error.detail ?? error.title ?? error.code ?? "invalid"`
unfoldable pub message_of : Json → Json
message_of e = or_else (present (get (codes "detail") e)) (
    or_else (present (get (codes "title") e))
      (or_else (present (get (codes "code") e)) (str (codes "invalid"))))

-- The names that `{}` has from `Object.prototype`.
abbrev pub is_inherited : Text → Bool
is_inherited name = any (text_eq name) (
    codes "__proto__"
    ∷ codes "constructor"
    ∷ codes "hasOwnProperty"
    ∷ codes "isPrototypeOf"
    ∷ codes "propertyIsEnumerable"
    ∷ codes "toLocaleString"
    ∷ codes "toString"
    ∷ codes "valueOf"
    ∷ codes "__defineGetter__"
    ∷ codes "__defineSetter__"
    ∷ codes "__lookupGetter__"
    ∷ codes "__lookupSetter__"
    ∷ [])

-- What reading a property throws.
pub data TypeError : Type 0 where
  not_a_function : TypeError

-- `(byField[field] ??= []).push(message)`: what `{}` inherits under the name is not nullish, and has
-- no `push`.
unfoldable pub push_message :
    Text → Json → List (Text × List Json) → Result TypeError (List (Text × List Json))
push_message name message by_field = elim (lookup name by_field) [
  | some messages ↦ ok (assign name (messages ++ message ∷ []) by_field)
  | none ↦
      if is_inherited name then err not_a_function else ok (assign name (message ∷ []) by_field)
]

-- The loop of `fieldErrors`.
unfoldable pub group_errors :
    List Json → List (Text × List Json) → Result TypeError (List (Text × List Json))
group_errors [] by_field = ok by_field
group_errors (e ∷ es) by_field = elim (pointer_of e) [
  | none ↦ group_errors es by_field
  | some pointer ↦ push_message (field_of pointer) (message_of e) by_field >>= group_errors es
]

-- `(Array.isArray(messages) ? messages : [messages]).map(String)`
unfoldable pub messages_of : Json → List Json
messages_of (arr js) = map (λ j. str (text_of j)) (items js)
messages_of j = str (text_of j) ∷ []

-- A field `__proto__` becomes the prototype of the result, and no entry of it.
unfoldable pub form_entries : List (Text × Json) → List (Text × List Json)
form_entries [] = []
form_entries ((name, j) ∷ es) =
    let rest = form_entries es in
    if text_eq name (codes "__proto__") then rest else (name, messages_of j) ∷ rest

unfoldable pub form_field_errors : Json → Option (List (Text × List Json))
form_field_errors body = elim (get (codes "errors") body) [
  | some (obj fs) ↦ some (form_entries (entries fs))
  | _ ↦ none
]

-- `KilnValidationError.fieldErrors`
unfoldable pub field_errors : KilnHttpError → Result TypeError (List (Text × List Json))
field_errors error = elim (form_field_errors error.body) [
  | some form_errors ↦ ok form_errors
  | none ↦ group_errors error.errors []
]

-- `KilnConflictError.currentState`
unfoldable pub current_state : KilnHttpError → Option Text
current_state error =
    string_of (get? (codes "current_state") (get? (codes "meta") (first error.errors)))

-- A wait in whole seconds: `Math.max(0, Math.ceil((date - now) / 1000))`
abbrev pub seconds_until : ℕ → ℕ → ℕ
seconds_until now date = (date - now + 999) / 1000

-- `Date.parse`, a parameter, gives milliseconds since 1970; an earlier date may be given as 0.
unfoldable pub parse_retry_after : (Text → Option ℕ) → Option Text → ℕ → Option ℕ
parse_retry_after parse_date none now = none
parse_retry_after parse_date (some value) now =
    if is_empty (trim value)
    then none
    else if all is_digit (trim value)
    then some (read (trim value))
    else elim (parse_date value) [ none ↦ none | some date ↦ some (seconds_until now date) ]

-- What was thrown by the platform: its `name`, where it is an object that has one, and its message,
-- or itself as a string.
pub record Thrown : Type 0 where
  pub name : Option Text
  pub reason : Text

-- The errors that are not answers.
pub data KilnError : Type 0 where
  http : KilnHttpError → KilnError
  network : Text → Thrown → KilnError
  graphql : List Json → Json → Option ℕ → KilnError
  config : Text → Text → KilnError
  plain : Text → Text → KilnError
  foreign : Thrown → KilnError

-- `KilnGraphQLError.code`: the first error's own, or the one in its extensions.
unfoldable pub graphql_code : List Json → Option Json
graphql_code errors = elim (present (get? (codes "code") (first errors))) [
  | some code ↦ some code
  | none ↦ elim (string_of (get? (codes "code") (get? (codes "extensions") (first errors)))) [
    | none ↦ none
    | some code ↦ some (str code)
  ]
]

-- `error.status` of each class.
unfoldable pub status_of : KilnError → Option ℕ
status_of (http error) = some error.status
status_of (graphql errors result status) = status
status_of _ = none

-- `error.code` of each class.
unfoldable pub code_of : KilnError → Option Json
code_of (http error) = error.code
code_of (network url cause) = some (str (codes "network_error"))
code_of (graphql errors result status) = graphql_code errors
code_of (config message code) = some (str code)
code_of (plain message code) = some (str code)
code_of (foreign thrown) = none

unfoldable pub is_kiln_error : KilnError → Bool
is_kiln_error (foreign thrown) = false
is_kiln_error _ = true

unfoldable pub is_kiln_http_error : KilnError → Bool
is_kiln_http_error (http error) = true
is_kiln_http_error _ = false
