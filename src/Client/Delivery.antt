-- ===== src/Client/Delivery.antt =====
-- The delivery surfaces of clients/js/src/client.ts: hybrid search, artifacts, previews, the schema,
-- routing, menus and forms; and the reads for editors.
use kiln_cms.Prelude.{
  ℕ, Bool, true, false, ◌&&◌, Option, none, some, or_else, List, [], ◌∷◌, ◌++◌, Text, codes,
  text_eq, ◌==◌, if◌then◌else◌, Result, err, ok,
}
use kiln_cms.Json.{
  Json, null, str, obj, Fields, no_fields, field, entries, field_list, assign, get, string_of,
}
use kiln_cms.JsonApi.{
  ListResult, ListOptions, Params, Signal, append, append_if_present, append_sparse_fields,
  flatten_document, as_document, list_params, joined, shown, not_false,
}
use kiln_cms.Errors.{KilnError, http, first, foreign, Thrown}
use kiln_cms.Client.{
  KilnClient, Platform, Call, ◌>>=◌, return, throw, catch, request, send, json_api, plain_json,
  json,
}
use kiln_cms.Client.Url.{encode_component}
use kiln_cms.Client.Reads.{get_method, Detail}

abbrev pub post_method : Text
post_method = codes "POST"

-- A moment: a text, or a `Date` by its `toISOString`.
pub data AsOf : Type 0 where
  moment date : Text → AsOf

unfoldable pub as_of_param : AsOf → Text
as_of_param (moment s) = s
as_of_param (date iso) = iso

pub record HybridSearchOptions : Type 0 where
  pub limit : Option ℕ
  pub locale : Option Text
  pub category : Option Text
  pub facets : Bool
  pub signal : Option Signal

unfoldable pub search_query : Text → HybridSearchOptions → Params
search_query q options =
    let p1 = append_if_present ((codes "q", q) ∷ []) (codes "limit") (shown options.limit) in
    let p2 = append_if_present p1 (codes "locale") options.locale in
    let p3 = append_if_present p2 (codes "category") options.category in
    if options.facets then append p3 (codes "facets") (codes "true") else p3

pub record ArtifactOptions : Type 0 where
  pub surface : Option Text
  pub locale : Option Text
  pub as_of : Option AsOf
  pub retry : Option Bool
  pub retry_delay_ms : Option ℕ
  pub signal : Option Signal

abbrev pub append_as_of : Params → Option AsOf → Params
append_as_of params none = params
append_as_of params (some moment_) = append params (codes "as_of") (as_of_param moment_)

unfoldable pub artifact_params : ArtifactOptions → Params
artifact_params options =
    let p1 = append_if_present [] (codes "surface") options.surface in
    let p2 = append_if_present p1 (codes "locale") options.locale in append_as_of p2 options.as_of

-- `/api/content/${encodeURIComponent(type)}/${encodeURIComponent(name)}`
unfoldable pub content_path : Text → Text → Text
content_path type_ name =
    codes "/api/content/" ++ (encode_component type_ ++ (codes "/" ++ encode_component name))

-- `error instanceof KilnHttpError && error.status === status`
unfoldable pub is_status : ℕ → KilnError → Bool
is_status status (http error) = error.status == status
is_status status _ = false

pub record DeliveryLocaleOptions : Type 0 where
  pub locale : Option Text
  pub fallback : Option Bool
  pub fallback_locale : Option Text
  pub signal : Option Signal

abbrev pub shown_bool : Option Bool → Option Text
shown_bool none = none
shown_bool (some true) = some (codes "true")
shown_bool (some false) = some (codes "false")

unfoldable pub append_locale : Params → DeliveryLocaleOptions → Params
append_locale params options =
    let p1 = append_if_present params (codes "locale") options.locale in
    let p2 = append_if_present p1 (codes "fallback") (shown_bool options.fallback) in
    append_if_present p2 (codes "fallback_locale") options.fallback_locale

unfoldable pub is_not_found_verdict : Json → Bool
is_not_found_verdict body = elim (string_of (get (codes "status") body)) [
  | none ↦ false
  | some status ↦ text_eq status (codes "not_found")
]

abbrev pub not_found_verdict : Json
not_found_verdict = obj (field (codes "status") (str (codes "not_found")) no_fields)

-- The handler of `resolvePath`.
unfoldable pub on_unresolved : {S : Type 0} → KilnError → Call S Json
on_unresolved (http error) =
    if error.status == 404 && is_not_found_verdict error.body
    then return not_found_verdict
    else throw (http error)
on_unresolved error = throw error

-- `{data: …}` is unwrapped.
abbrev pub unwrapped : Json → Json
unwrapped body = or_else (get (codes "data") body) body

abbrev pub type_error : KilnError
type_error = foreign (record { name = some (codes "TypeError"); reason = codes "no data" })

unfoldable pub revisions_path : Text → Text → Text
revisions_path type_ id = content_path type_ id ++ codes "/revisions"

-- The code takes it that a release is there; what it gives otherwise is no release.
abbrev pub release_detail : ListResult → Option Detail
release_detail result = elim (first result.items) [
  | none ↦ none
  | some i ↦ some (record { item = i; included = result.included })
]

module _ {S : Type 0} (platform : Platform S) (client : KilnClient) where
  open platform use {sleep}

  abbrev pub get_json : Text → Params → Option Signal → Call S Json
  get_json path params signal = request platform client get_method path params signal plain_json

  unfoldable pub search : Text → HybridSearchOptions → Call S Json
  search q options =
      request platform client get_method (codes "/api/search") (search_query q options)
        options.signal json_api

  -- The second attempt, unless the wait is cut short: then the first error stands.
  unfoldable pub again :
      Call S Json → KilnError → S × Result Thrown (Unit {0}) → S × Result KilnError Json
  again attempt error (s, err aborted) = throw error s
  again attempt error (s, ok tt) = attempt s

  unfoldable pub artifact : Text → Text → ArtifactOptions → Call S Json
  artifact type_ slug options =
      let attempt = get_json (content_path type_ slug) (artifact_params options) options.signal in
      catch attempt (λ error s.
        if is_status 503 error && not_false options.retry
        then again attempt error (sleep (or_else options.retry_delay_ms 2000) options.signal s)
        else throw error s)

  unfoldable pub content_as_of : Text → AsOf → Option ℕ → Option Signal → Call S Json
  content_as_of type_ moment_ limit signal =
      get_json (codes "/api/content/" ++ encode_component type_)
        (append_if_present ((codes "as_of", as_of_param moment_) ∷ []) (codes "limit")
          (shown limit))
        signal

  unfoldable pub preview : Text → Option Signal → Call S Json
  preview token signal = do
    body ← get_json (codes "/preview/" ++ encode_component token) [] signal
    return (unwrapped body)

  unfoldable pub mint_preview : Text → Text → Option Signal → Call S Json
  mint_preview type_ id signal =
      request platform client post_method (content_path type_ id ++ codes "/preview-token") []
        signal plain_json

  unfoldable pub schema : Option (List Text) → Bool → Option Signal → Call S Json
  schema types blocks_only signal =
      let params = append_if_present [] (codes "type") (joined types) in
      get_json (codes "/api/schema")
        (if blocks_only then append params (codes "blocks") (codes "only") else params) signal

  unfoldable pub resolve_path : Text → DeliveryLocaleOptions → Call S Json
  resolve_path path options =
      catch
        (get_json (codes "/api/resolve") (append_locale ((codes "path", path) ∷ []) options)
          options.signal)
        on_unresolved

  unfoldable pub menus : Option Signal → Call S Json
  menus signal = get_json (codes "/api/menus") [] signal

  unfoldable pub menu : Text → DeliveryLocaleOptions → Call S Json
  menu key options =
      get_json (codes "/api/menus/" ++ encode_component key) (append_locale [] options)
        options.signal

  unfoldable pub locales : Option Signal → Call S Json
  locales signal = get_json (codes "/api/locales") [] signal

  unfoldable pub related : Text → Text → DeliveryLocaleOptions → Option ℕ → Call S Json
  related type_ slug options limit =
      get_json (content_path type_ slug ++ codes "/related")
        (append_if_present (append_locale [] options) (codes "limit") (shown limit)) options.signal

  unfoldable pub form_schema : Text → Option Signal → Call S Json
  form_schema slug signal = get_json (codes "/api/forms/" ++ encode_component slug) [] signal

  -- `{ ...values, locale }`
  abbrev pub submission : Fields → Option Text → Json
  submission values none = obj values
  submission values (some locale) =
      obj (field_list (assign (codes "locale") (str locale) (entries values)))

  unfoldable pub submit_form : Text → Fields → Option Text → Option Signal → Call S Json
  submit_form slug values locale signal =
      send platform client post_method (codes "/api/forms/" ++ encode_component slug) (record {
        params = [];
        signal = signal;
        accept = plain_json;
        content_type = some plain_json;
        body = json (submission values locale);
        upload = false;
        anonymous = true;
        headers = [];
      })

  unfoldable pub list_revisions : Text → Text → Option ℕ → Option Text → Option Signal → Call S Json
  list_revisions type_ id limit cursor signal =
      get_json (revisions_path type_ id)
        (append_if_present (append_if_present [] (codes "limit") (shown limit)) (codes "cursor")
          cursor)
        signal

  -- `body.data`: of `null` this throws, and of anything else without it is `undefined`.
  abbrev pub data_of : Json → Call S (Option Json)
  data_of null = throw type_error
  data_of body = return (get (codes "data") body)

  unfoldable pub revision : Text → Text → Text → Option Signal → Call S (Option Json)
  revision type_ id version_id signal = do
    body ←
        get_json (revisions_path type_ id ++ (codes "/" ++ encode_component version_id)) [] signal
    data_of body

  unfoldable pub restore_revision : Text → Text → Text → Option Signal → Call S (Option Json)
  restore_revision type_ id version_id signal = do
    body ←
        request platform client post_method
          (revisions_path type_ id
            ++ (codes "/" ++ (encode_component version_id ++ codes "/restore")))
          [] signal plain_json
    data_of body

  -- An index read: `releases` and `releaseItems`.
  abbrev pub index_at : Text → ListOptions → Call S ListResult
  index_at path options = do
    doc ← request platform client get_method path (list_params options) options.signal json_api
    return (flatten_document (as_document doc))

  unfoldable pub releases : ListOptions → Call S ListResult
  releases options = index_at (codes "/api/json/releases") options

  unfoldable pub release_items : ListOptions → Call S ListResult
  release_items options = index_at (codes "/api/json/release-items") options

  unfoldable pub release :
      Text
      → Option (List Text)
      → Option (List (Text × List Text))
      → Option Signal
      → Call S (Option Detail)
  release id include fields signal = do
    doc ←
        request platform client get_method (codes "/api/json/releases/" ++ encode_component id)
          (append_sparse_fields (append_if_present [] (codes "include") (joined include)) fields)
          signal json_api
    return (release_detail (flatten_document (as_document doc)))
