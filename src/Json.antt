-- ===== src/Json.antt =====
-- JSON values, as the client of clients/js/src meets them: the bodies of requests and answers.
pub mod Entries
use kiln_cms.Prelude.{
  Bool, true, false, not, ◌&&◌, ◌||◌, Option, none, some, List, [], ◌∷◌, ◌++◌, map, Text, codes,
  join, text_eq, is_empty, if◌then◌else◌,
}

-- A number is kept as `String` prints it. The fields of an object have different names, and stand
-- in the order of `Object.entries`.
mutual
  pub data Json : Type 0 where
    null : Json
    bool : Bool → Json
    number : Text → Json
    str : Text → Json
    arr : Items → Json
    obj : Fields → Json

  pub data Items : Type 0 where
    no_items : Items
    item : Json → Items → Items

  pub data Fields : Type 0 where
    no_fields : Fields
    field : Text → Json → Fields → Fields

abbrev pub items : Items → List Json
items no_items = []
items (item j js) = j ∷ items js

-- `Object.entries(fields)`
abbrev pub entries : Fields → List (Text × Json)
entries no_fields = []
entries (field k j fs) = (k, j) ∷ entries fs

abbrev pub item_list : List Json → Items
item_list [] = no_items
item_list (j ∷ js) = item j (item_list js)

abbrev pub field_list : List (Text × Json) → Fields
field_list [] = no_fields
field_list ((k, j) ∷ fs) = field k j (field_list fs)

-- What is stored under a name, in an object that is a list of entries.
abbrev pub lookup {ℓ} : {A : Type ℓ} → Text → List (Text × A) → Option A
lookup k [] = none
lookup k ((l, a) ∷ es) = if text_eq l k then some a else lookup k es

-- `object[name] = value`
abbrev pub assign {ℓ} : {A : Type ℓ} → Text → A → List (Text × A) → List (Text × A)
assign k a [] = (k, a) ∷ []
assign k a ((l, b) ∷ es) =
    let rest = assign k a es in if text_eq l k then (l, a) ∷ es else (l, b) ∷ rest

-- `value.name`; of a value that is not an object, `undefined`
abbrev pub get : Text → Json → Option Json
get k (obj fs) = lookup k (entries fs)
get k _ = none

-- `value?.name`, of a value that may be missing
abbrev pub get? : Text → Option Json → Option Json
get? k none = none
get? k (some j) = get k j

-- `value !== null && typeof value === "object"`, which an array is too
abbrev pub is_object : Json → Bool
is_object (arr _) = true
is_object (obj _) = true
is_object _ = false

-- `typeof value === "string"`, and the string
abbrev pub string_of : Option Json → Option Text
string_of (some (str s)) = some s
string_of _ = none

-- `value ?? …`: what is neither missing nor null
abbrev pub present : Option Json → Option Json
present (some null) = none
present o = o

-- whether `if (value)` holds
abbrev pub is_truthy : Json → Bool
is_truthy null = false
is_truthy (bool b) = b
is_truthy (number n) = not (text_eq n (codes "0"))
is_truthy (str s) = not (is_empty s)
is_truthy _ = true

-- `String(value)`: an array is joined by commas, with nothing for null.
unfoldable mutual
  pub text_of : Json → Text
  text_of null = codes "null"
  text_of (bool true) = codes "true"
  text_of (bool false) = codes "false"
  text_of (number n) = n
  text_of (str s) = s
  text_of (arr js) = join (codes ",") (texts_of js)
  text_of (obj _) = codes "[object Object]"

  texts_of : Items → List Text
  texts_of no_items = []
  texts_of (item j js) = element_text j ∷ texts_of js

  element_text : Json → Text
  element_text null = []
  element_text (bool true) = codes "true"
  element_text (bool false) = codes "false"
  element_text (number n) = n
  element_text (str s) = s
  element_text (arr js) = join (codes ",") (texts_of js)
  element_text (obj _) = codes "[object Object]"
