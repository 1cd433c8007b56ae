-- ===== src/JsonApi.antt =====
-- JSON:API documents and queries, clients/js/src/jsonapi.ts.
pub mod Included
use kiln_cms.Prelude.{
  ℕ, Bool, true, false, not, Option, none, some, or_else, List, [], ◌∷◌, ◌++◌, map, Text, codes,
  join, show, text_eq, if◌then◌else◌, Result, ok, err,
}
use kiln_cms.Errors.{TypeError, not_a_function, is_inherited}
use kiln_cms.Json.{
  Json, null, bool, number, str, arr, obj, Items, no_items, item, Fields, no_fields, field, items,
  entries, lookup, assign, get, get?, string_of, present, text_of,
}

pub record ResourceRef : Type 0 where
  pub type_ : Text
  pub id : Text

pub record RawResource : Type 0 where
  pub id : Option Text
  pub type_ : Option Text
  pub attributes : Option (List (Text × Json))
  pub relationships : Option (List (Text × Json))

-- `data`, where it is there
pub data RawData : Type 0 where
  absent : RawData
  one : RawResource → RawData
  many : List RawResource → RawData

pub record RawDocument : Type 0 where
  pub content : RawData
  pub included : Option (List RawResource)
  pub total : Option Json

abbrev pub entries_of : Option Json → Option (List (Text × Json))
entries_of (some (obj fs)) = some (entries fs)
entries_of _ = none

-- The casts to the types of a document. The code trusts that a document is of its type; what is not
-- is read as missing here.
unfoldable pub as_resource : Json → RawResource
as_resource j = record {
  id = string_of (get (codes "id") j);
  type_ = string_of (get (codes "type") j);
  attributes = entries_of (get (codes "attributes") j);
  relationships = entries_of (get (codes "relationships") j);
}

abbrev pub as_content : Option Json → RawData
as_content none = absent
as_content (some (arr js)) = many (map as_resource (items js))
as_content (some j) = one (as_resource j)

abbrev pub as_resources : Option Json → Option (List RawResource)
as_resources (some (arr js)) = some (map as_resource (items js))
as_resources _ = none

unfoldable pub as_document : Json → RawDocument
as_document doc = record {
  content = as_content (present (get (codes "data") doc));
  included = as_resources (get (codes "included") doc);
  total = present (get? (codes "total") (get? (codes "page") (get (codes "meta") doc)));
}

-- A resource, flattened. What the attributes have under `id`, `type` or `relationships` is hidden by
-- these fields.
pub record Item : Type 0 where
  pub attributes : List (Text × Json)
  pub id : Text
  pub type_ : Text
  pub relationships : List (Text × List ResourceRef)

pub record ListResult : Type 0 where
  pub items : List Item
  pub included : List (Text × Item)
  pub total : Option Json

unfoldable pub ref_key : Text → Text → Text
ref_key type_ id = type_ ++ (codes ":" ++ id)

-- Of the entries of `data`, those with a textual type and id.
unfoldable pub ref_of : Json → Option ResourceRef
ref_of j = elim (string_of (get (codes "type") j)) [
  | none ↦ none
  | some type_ ↦ elim (string_of (get (codes "id") j)) [
    | none ↦ none
    | some id ↦ some (record { type_ = type_; id = id })
  ]
]

abbrev pub with_some {ℓ} : {A : Type ℓ} → Option A → List A → List A
with_some none xs = xs
with_some (some x) xs = x ∷ xs

-- `list.map(f).filter((x) => x !== undefined)`
abbrev pub filter_map {ℓ κ} : {A : Type ℓ} {B : Type κ} → (A → Option B) → List A → List B
filter_map f [] = []
filter_map f (x ∷ xs) = with_some (f x) (filter_map f xs)

unfoldable pub relationship_refs : Json → List ResourceRef
relationship_refs value = elim (present (get (codes "data") value)) [
  | none ↦ []
  | some (arr js) ↦ filter_map ref_of (items js)
  | some j ↦ filter_map ref_of (j ∷ [])
]

-- The loop over the relationships. One named `__proto__` is no entry of the result.
unfoldable pub relationships_from :
    List (Text × Json) → List (Text × List ResourceRef) → List (Text × List ResourceRef)
relationships_from [] acc = acc
relationships_from ((name, value) ∷ es) acc =
    relationships_from es
      (if text_eq name (codes "__proto__") then acc else assign name (relationship_refs value) acc)

unfoldable pub flatten_resource : RawResource → Item
flatten_resource resource = record {
  attributes = or_else resource.attributes [];
  id = or_else resource.id [];
  type_ = or_else resource.type_ [];
  relationships = relationships_from (or_else resource.relationships []) [];
}

-- The map of what came along, by key; of two with one key the later one.
unfoldable pub include_from : List RawResource → List (Text × Item) → List (Text × Item)
include_from [] acc = acc
include_from (resource ∷ rs) acc =
    let flat = flatten_resource resource in
    include_from rs (assign (ref_key flat.type_ flat.id) flat acc)

abbrev pub empty_result : ListResult
empty_result = record { items = []; included = []; total = none }

unfoldable pub flatten_document : RawDocument → ListResult
flatten_document raw =
    let included = include_from (or_else raw.included []) [] in
    elim raw.content [
      | absent ↦ empty_result
      | one resource ↦ record {
        items = flatten_resource resource ∷ [];
        included = included;
        total = raw.total;
      }
      | many rs ↦ record { items = map flatten_resource rs; included = included; total = raw.total }
    ]

-- `item.relationships[name] ?? []`; none is a member that every object inherits, which is no list. (An
-- item with a relationship named `__proto__` inherits from that one's references instead.)
unfoldable pub rel : Item → Text → Option (List ResourceRef)
rel i name = elim (lookup name i.relationships) [
  | some refs ↦ some refs
  | none ↦ if is_inherited name then none else some []
]

-- `.map` of what is no list throws.
unfoldable pub resolve : Item → Text → List (Text × Item) → Result TypeError (List Item)
resolve i name included = elim (rel i name) [
  | none ↦ err not_a_function
  | some refs ↦ ok (filter_map (λ (r : ResourceRef). lookup (ref_key r.type_ r.id) included) refs)
]

-- Query parameters in their order, as `URLSearchParams` holds them.
abbrev pub Params : Type 0
Params = List (Text × Text)

-- `params.append(key, value)`
abbrev pub append : Params → Text → Text → Params
append params key value = params ++ (key, value) ∷ []

abbrev pub bracket : Text → Text → Text
bracket prefix name = prefix ++ (codes "[" ++ (name ++ codes "]"))

-- A filter is a JSON value: an object nests, an array fans out, and what else there is is printed.
unfoldable mutual
  pub filter_spec : Text → Json → Params
  filter_spec key (arr js) = filter_values (key ++ codes "[]") js
  filter_spec key (obj fs) = filter_fields key fs
  filter_spec key null = (key, text_of null) ∷ []
  filter_spec key (bool b) = (key, text_of (bool b)) ∷ []
  filter_spec key (number n) = (key, text_of (number n)) ∷ []
  filter_spec key (str s) = (key, text_of (str s)) ∷ []

  pub filter_values : Text → Items → Params
  filter_values key no_items = []
  filter_values key (item j js) = (key, text_of j) ∷ filter_values key js

  pub filter_fields : Text → Fields → Params
  filter_fields key no_fields = []
  filter_fields key (field name j fs) = filter_spec (bracket key name) j ++ filter_fields key fs

unfoldable pub append_filter : Params → Text → Fields → Params
append_filter params prefix filter = params ++ filter_fields prefix filter

unfoldable pub append_array : Params → Text → Option (List Text) → Params
append_array params key none = params
append_array params key (some values) = params ++ map (λ v. (key ++ codes "[]", v)) values

unfoldable pub append_sparse_fields : Params → Option (List (Text × List Text)) → Params
append_sparse_fields params none = params
append_sparse_fields params (some fields) =
    params
    ++ map (λ (e : Text × List Text). (bracket (codes "fields") e.0, join (codes ",") e.1)) fields

unfoldable pub append_if_present : Params → Text → Option Text → Params
append_if_present params key none = params
append_if_present params key (some value) = append params key value

-- `options.names?.join(",")`
abbrev pub joined : Option (List Text) → Option Text
joined none = none
joined (some names) = some (join (codes ",") names)

-- `String(n)` of a number that is passed on
abbrev pub shown : Option ℕ → Option Text
shown none = none
shown (some n) = some (show n)

-- A caller's `AbortSignal`, by a number that names it, or an `AbortSignal.timeout` by the time at which
-- it was made and its milliseconds.
pub data Signal : Type 0 where
  given : ℕ → Signal
  timeout : ℕ → ℕ → Signal

pub record ListOptions : Type 0 where
  pub filter : Option Fields
  pub custom_filter : Option Fields
  pub sort : Option (List Text)
  pub custom_sort : Option (List Text)
  pub include : Option (List Text)
  pub fields : Option (List (Text × List Text))
  pub limit : Option ℕ
  pub offset : Option ℕ
  pub count : Option Bool
  pub published : Option Bool
  pub signal : Option Signal

-- A filter that may be missing
abbrev pub append_filter? : Params → Text → Option Fields → Params
append_filter? params prefix none = params
append_filter? params prefix (some filter) = append_filter params prefix filter

-- `option !== false`
abbrev pub not_false : Option Bool → Bool
not_false (some false) = false
not_false _ = true

unfoldable pub list_params : ListOptions → Params
list_params options =
    let p1 = append_filter? [] (codes "filter") options.filter in
    let p2 = append_filter? p1 (codes "custom_filter") options.custom_filter in
    let p3 = append_if_present p2 (codes "sort") (joined options.sort) in
    let p4 = append_if_present p3 (codes "custom_sort") (joined options.custom_sort) in
    let p5 = append_if_present p4 (codes "include") (joined options.include) in
    let p6 = append_sparse_fields p5 options.fields in
    let p7 = append_if_present p6 (codes "page[limit]") (shown options.limit) in
    let p8 = append_if_present p7 (codes "page[offset]") (shown options.offset) in
    if not_false options.count then append p8 (codes "page[count]") (codes "true") else p8
