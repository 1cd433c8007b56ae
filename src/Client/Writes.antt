-- ===== src/Client/Writes.antt =====
-- The writes of clients/js/src/client.ts, and its GraphQL call.
pub mod Guarded
use kiln_cms.Prelude.{
  ℕ, ◌-◌, Bool, true, false, Option, none, some, or_else, List, [], ◌∷◌, ◌++◌, map, keep, length,
  take, drop, Text, codes, text_eq, leb, is_empty, if◌then◌else◌, ◌&&◌, ◌==◌, Result, err, ok,
}
use kiln_cms.Json.{
  Json, null, str, arr, obj, items, Fields, no_fields, get, get?, is_object, present,
}
use kiln_cms.JsonApi.{Item, Signal, flatten_document, as_document}
use kiln_cms.Errors.{KilnError, KilnHttpError, http, plain, graphql, first}
use kiln_cms.Client.{
  KilnClient, Platform, Call, Body, no_body, json, ◌>>=◌, ◌>>◌, return, throw, catch, after, caught,
  write, send, plain_json,
}
use kiln_cms.Client.Url.{encode_component}
use kiln_cms.Client.Delivery.{post_method}
use kiln_cms.Client.Media.{object}

-- `text.endsWith(end)`
abbrev pub ends_with : Text → Text → Bool
ends_with end_ s = leb (length end_) (length s) && text_eq (drop (length s - length end_) s) end_

abbrev pub without_last : ℕ → Text → Text
without_last n s = take (length s - n) s

-- `resourceType`; the first argument is `options.type`.
unfoldable pub resource_type : Option Text → Text → Text
resource_type (some type_) plural = type_
resource_type none plural =
    if ends_with (codes "ies") plural
    then without_last 3 plural ++ codes "y"
    else if ends_with (codes "s") plural
    then without_last 1 plural
    else plural

abbrev pub empty_response : KilnError
empty_response =
    plain (codes "Kiln answered a write with no resource document") (codes "empty_response")

unfoldable pub only_item : {S : Type 0} → Json → Call S Item
only_item doc = elim (first (flatten_document (as_document doc)).items) [
  | none ↦ throw empty_response
  | some i ↦ return i
]

unfoldable pub graphql_errors : Json → List Json
graphql_errors body = elim (get (codes "errors") body) [
  | some (arr js) ↦ keep is_object (items js)
  | _ ↦ []
]

-- `verb.replace(/_/g, "-")`
unfoldable pub verb_route : Text → Text
verb_route [] = []
verb_route (c ∷ s) = (if c == b'_' then b'-' else c) ∷ verb_route s

abbrev pub collection_path : Text → Text
collection_path plural = codes "/api/json/" ++ plural

abbrev pub record_path : Text → Text → Text
record_path plural id = collection_path plural ++ (codes "/" ++ encode_component id)

abbrev pub patch_method : Text
patch_method = codes "PATCH"

-- `{ data: … }`
abbrev pub resource_body : List (Text × Json) → Body
resource_body es = json (object ((codes "data", object es) ∷ []))

abbrev pub behalf_headers : Option Text → List (Text × Text)
behalf_headers none = []
behalf_headers (some who) = (codes "x-kiln-on-behalf-of", who) ∷ []

-- A refused document is answered with a 400 that is GraphQL-shaped all the same.
unfoldable pub on_graphql_error : {S : Type 0} → KilnError → Call S Json
on_graphql_error (http error) =
    if error.status == 400
    then elim (graphql_errors error.body) [
      | [] ↦ throw (http error)
      | e ∷ es ↦ throw (graphql (e ∷ es) null (some 400))
    ]
    else throw (http error)
on_graphql_error error = throw error

unfoldable pub graphql_answer : {S : Type 0} → Json → Call S Json
graphql_answer body = elim (graphql_errors body) [
  | [] ↦ return (or_else (present (get (codes "data") body)) (obj no_fields))
  | e ∷ es ↦ throw (graphql (e ∷ es) (or_else (get (codes "data") body) null) (some 200))
]

unfoldable pub graphql_payload : Text → Fields → Option Text → Json
graphql_payload query variables none =
    object ((codes "query", str query) ∷ (codes "variables", obj variables) ∷ [])
graphql_payload query variables (some name) = object (
    (codes "query", str query)
    ∷ (codes "variables", obj variables)
    ∷ (codes "operationName", str name)
    ∷ [])

module _ {S : Type 0} (platform : Platform S) (client : KilnClient) where
  unfoldable pub create : Text → Fields → Option Text → Option Text → Option Signal → Call S Item
  create plural attributes type_ on_behalf_of signal = do
    doc ←
        write platform client post_method (collection_path plural)
          (resource_body (
            (codes "type", str (resource_type type_ plural))
            ∷ (codes "attributes", obj attributes)
            ∷ []))
          signal (behalf_headers on_behalf_of)
    only_item doc

  unfoldable pub update : Text → Text → Fields → Option Text → Option Signal → Call S Item
  update plural id attributes type_ signal = do
    doc ←
        write platform client patch_method (record_path plural id)
          (resource_body (
            (codes "type", str (resource_type type_ plural))
            ∷ (codes "id", str id)
            ∷ (codes "attributes", obj attributes)
            ∷ []))
          signal []
    only_item doc

  unfoldable pub transition : Text → Text → Text → Option Text → Option Signal → Call S Item
  transition plural id verb type_ signal = do
    doc ←
        write platform client patch_method
          (record_path plural id ++ (codes "/" ++ encode_component (verb_route verb)))
          (resource_body (
            (codes "type", str (resource_type type_ plural))
            ∷ (codes "id", str id)
            ∷ (codes "attributes", obj no_fields)
            ∷ []))
          signal []
    only_item doc

  unfoldable pub submit_for_review : Text → Text → Option Text → Option Signal → Call S Item
  submit_for_review plural id type_ signal =
      transition plural id (codes "submit_for_review") type_ signal

  unfoldable pub return_to_draft : Text → Text → Option Text → Option Signal → Call S Item
  return_to_draft plural id type_ signal =
      transition plural id (codes "return_to_draft") type_ signal

  unfoldable pub publish : Text → Text → Option Text → Option Signal → Call S Item
  publish plural id type_ signal = transition plural id (codes "publish") type_ signal

  unfoldable pub unpublish : Text → Text → Option Text → Option Signal → Call S Item
  unpublish plural id type_ signal = transition plural id (codes "unpublish") type_ signal

  unfoldable pub delete : Text → Text → Option Signal → Call S (Unit {0})
  delete plural id signal = do
    write platform client (codes "DELETE") (record_path plural id) no_body signal []
    return tt

  unfoldable pub graphql_call : Text → Fields → Option Text → Option Signal → Call S Json
  graphql_call query variables operation_name signal = do
    body ←
        catch
          (send platform client post_method (codes "/gql") (record {
            params = [];
            signal = signal;
            accept = plain_json;
            content_type = some plain_json;
            body = json (graphql_payload query variables operation_name);
            upload = false;
            anonymous = false;
            headers = [];
          }))
          on_graphql_error
    graphql_answer body
