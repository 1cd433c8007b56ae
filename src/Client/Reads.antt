-- ===== src/Client/Reads.antt =====
-- Reads of content through JSON:API, clients/js/src/client.ts: `list`, `one`, `byIds` and the searches.
pub mod Chunks
pub mod Batch
use kiln_cms.Prelude.{
  ℕ, zero, suc, ◌+◌, Bool, true, false, Option, none, some, or_else, List, [], ◌∷◌, ◌++◌, map,
  length, take, drop, Text, codes, if◌then◌else◌, Result, err, ok,
}
use kiln_cms.Json.{
  Json, str, arr, obj, Items, Fields, entries, item_list, field_list, no_fields, field, lookup,
  assign,
}
use kiln_cms.JsonApi.{
  Item, ListResult, ListOptions, Params, Signal, flatten_document, as_document, list_params,
  filter_map, append_if_present, append_array, append_filter?, append_sparse_fields, joined, shown,
  not_false,
}
use kiln_cms.Errors.{KilnError, first}
use kiln_cms.Client.{
  KilnClient, Platform, Call, ◌>>=◌, ◌>>◌, return, after, request, json_api, max_page_size,
}

-- Published content only, unless the caller asks for more.
unfoldable pub published : Option Bool → Bool
published option = not_false option

abbrev pub get_method : Text
get_method = codes "GET"

unfoldable pub list_path : Text → Option Bool → Text
list_path plural option =
    codes "/api/json/" ++ (plural ++ (if published option then codes "/published" else []))

-- The options of the searches.
pub record SearchOptions : Type 0 where
  pub locale : Option Text
  pub tag_ids : Option (List Text)
  pub custom_filter : Option Fields
  pub sort : Option (List Text)
  pub custom_sort : Option (List Text)
  pub limit : Option ℕ
  pub include : Option (List Text)
  pub fields : Option (List (Text × List Text))
  pub published : Option Bool
  pub signal : Option Signal

unfoldable pub search_path : Text → Text → Option Bool → Text
search_path plural route option =
    codes "/api/json/"
    ++ (plural ++ (codes "/" ++ (route ++ (if published option then codes "/published" else []))))

unfoldable pub search_params : Params → SearchOptions → Params
search_params base options =
    let p1 = append_if_present base (codes "locale") options.locale in
    let p2 = append_array p1 (codes "tag_ids") options.tag_ids in
    let p3 = append_filter? p2 (codes "custom_filter") options.custom_filter in
    let p4 = append_if_present p3 (codes "sort") (joined options.sort) in
    let p5 = append_if_present p4 (codes "custom_sort") (joined options.custom_sort) in
    let p6 = append_if_present p5 (codes "page[limit]") (shown options.limit) in
    let p7 = append_if_present p6 (codes "include") (joined options.include) in
    append_sparse_fields p7 options.fields

-- The loop that cuts a list of ids into chunks; the number of ids is fuel enough.
unfoldable pub chunks_from : ℕ → List Text → List (List Text)
chunks_from zero ids = []
chunks_from (suc f) [] = []
chunks_from (suc f) (id ∷ ids) =
    take max_page_size (id ∷ ids) ∷ chunks_from f (drop max_page_size (id ∷ ids))

unfoldable pub chunks : List Text → List (List Text)
chunks ids = chunks_from (length ids) ids

abbrev pub text_items : List Text → Items
text_items ids = item_list (map str ids)

-- `{ ...options, filter: { ...options.filter, id: { in: chunk } }, limit: chunk.length, count: false }`
unfoldable pub chunk_options : ListOptions → List Text → ListOptions
chunk_options options chunk = record options {
  filter = some (
      field_list (
        assign (codes "id") (obj (field (codes "in") (arr (text_items chunk)) no_fields))
          (entries (or_else options.filter no_fields))));
  limit = some (length chunk);
  count = some false;
}

-- `new Map(items.map((item) => [item.id, item]))`
unfoldable pub index_from : List Item → List (Text × Item) → List (Text × Item)
index_from [] acc = acc
index_from (i ∷ is) acc = index_from is (assign i.id i acc)

abbrev pub all_items : List ListResult → List Item
all_items [] = []
all_items (r ∷ rs) = r.items ++ all_items rs

-- A record with what came along with it.
pub record Detail : Type 0 where
  pub item : Item
  pub included : List (Text × Item)

-- `first === undefined ? null : …`
unfoldable pub first_detail : ListResult → Option Detail
first_detail result = elim (first result.items) [
  | none ↦ none
  | some i ↦ some (record { item = i; included = result.included })
]

unfoldable pub picked : List Text → List ListResult → List Item
picked ids results =
    let by_id = index_from (all_items results) [] in filter_map (λ id. lookup id by_id) ids

module _ {S : Type 0} where
  abbrev pub settle :
      {A : Type 0}
      → S × Result KilnError A
      → (S → S × Result KilnError (List A))
      → S × Result KilnError (List A)
  settle (s, err e) rest = ((rest s).0, err e)
  settle (s, ok a) rest = after (rest s) (λ more. return (a ∷ more))

  -- `Promise.all`: the calls are all made, in their order; the first error, in that order, is thrown.
  abbrev pub all_calls : {A B : Type 0} → (A → Call S B) → List A → Call S (List B)
  all_calls call [] s = return [] s
  all_calls call (x ∷ xs) s = settle (call x s) (all_calls call xs)

module _ {S : Type 0} (platform : Platform S) (client : KilnClient) where
  unfoldable pub list : Text → ListOptions → Call S ListResult
  list plural options = do
    doc ←
        request platform client get_method (list_path plural options.published)
          (list_params options) options.signal json_api
    return (flatten_document (as_document doc))

  unfoldable pub one : Text → Fields → ListOptions → Call S (Option Detail)
  one plural filter options = do
    result ←
        list plural (record options { filter = some filter; limit = some 1; count = some false })
    return (first_detail result)

  unfoldable pub by_ids : Text → List Text → ListOptions → Call S (List Item)
  by_ids plural [] options = return []
  by_ids plural (id ∷ ids) options = do
    results ← all_calls (λ chunk. list plural (chunk_options options chunk)) (chunks (id ∷ ids))
    return (picked (id ∷ ids) results)

  unfoldable pub search_request : Text → Text → Params → SearchOptions → Call S ListResult
  search_request plural route base options = do
    doc ←
        request platform client get_method (search_path plural route options.published)
          (search_params base options) options.signal json_api
    return (flatten_document (as_document doc))

  unfoldable pub text_search : Text → Text → SearchOptions → Call S ListResult
  text_search plural query options =
      search_request plural (codes "search") ((codes "query", query) ∷ []) options

  unfoldable pub semantic_search : Text → Text → SearchOptions → Call S ListResult
  semantic_search plural query options =
      search_request plural (codes "semantic-search") ((codes "query", query) ∷ []) options

  unfoldable pub autocomplete : Text → Text → SearchOptions → Call S ListResult
  autocomplete plural prefix options =
      search_request plural (codes "autocomplete") ((codes "prefix", prefix) ∷ []) options
