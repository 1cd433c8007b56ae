-- ===== src/Generator.antt =====
-- The emitter of TypeScript declarations, clients/js/src/generator.ts. Of a schema under `oneOf` or
-- `anyOf` only what is read is kept: its `$ref` and its `type`.
pub mod Names
pub mod Escapes
use kiln_cms.Prelude.{
  ℕ, zero, suc, ◌+◌, ◌-◌, Bool, true, false, not, ◌&&◌, ◌||◌, Option, none, some, or_else, is_some,
  List, [], ◌∷◌, ◌++◌, map, keep, any, length, drop, Text, codes, join, starts, split_on, text_eq,
  is_empty, lower, ◌==◌, ltb, leb, if◌then◌else◌,
}
use kiln_cms.Json.{Json, str, text_of}
use kiln_cms.Generator.Names.{
  escape_string, escape_close, property_key, type_name, ref_target, insert_by_key, sort_by_key,
  sort_names,
}

-- The keyword `type`.
pub data TypeKeyword : Type 0 where
  untyped : TypeKeyword
  one_type : Text → TypeKeyword
  type_list : List Text → TypeKeyword

-- A schema under `anyOf`.
pub record Alternative : Type 0 where
  pub ref : Option Text
  pub type_ : TypeKeyword

pub record Keywords : Type 0 where
  pub ref : Option Text
  pub one_of : Option (List (Option Text))
  pub any_of : Option (List Alternative)
  pub type_ : TypeKeyword
  pub const : Option Json
  pub enum : Option (List Json)
  pub required : Option (List Text)
  pub closed : Bool
  pub description : Option Text
  pub target_types : Option (List Json)

mutual
  pub data JsonSchema : Type 0 where
    schema : Keywords → SchemaItems → Properties → JsonSchema

  -- `items`
  pub data SchemaItems : Type 0 where
    no_items : SchemaItems
    items : JsonSchema → SchemaItems

  -- `properties`
  pub data Properties : Type 0 where
    no_properties : Properties
    properties : PropertyList → Properties

  pub data PropertyList : Type 0 where
    no_more : PropertyList
    property : Text → JsonSchema → PropertyList → PropertyList

unfoldable pub literal : Json → Text
literal (str s) = codes "\"" ++ (escape_string s ++ codes "\"")
literal j = text_of j

-- A property as it is written: what comes after its key.
pub record Field : Type 0 where
  pub annotation : Text
  pub type_ : Text

-- `annotation`
unfoldable pub annotation_of : Option (List Json) → Text
annotation_of none = []
annotation_of (some []) = []
annotation_of (some (t ∷ ts)) =
    codes "/* links to: "
    ++ (escape_close (join (codes " | ") (map literal (t ∷ ts))) ++ codes " */ ")

abbrev pub has_key : List Text → Text → Bool
has_key names key = any (text_eq key) names

-- `${propertyKey(key)}${optional}: ${annotation(value)}${tsType(value)}`
unfoldable pub field_text : List Text → Text × Field → Text
field_text required (key, f) =
    property_key key
    ++ ((if has_key required key then [] else codes "?")
        ++ (codes ": " ++ (f.annotation ++ f.type_)))

unfoldable pub inline_object : List (Text × Field) → List Text → Text
inline_object fields required =
    codes "{ " ++ (join (codes "; ") (map (field_text required) (sort_by_key fields)) ++ codes " }")

abbrev pub ref_name : Option Text → Text
ref_name ref = type_name (ref_target (or_else ref []))

-- The end of `tsType`, where `type` is one text or none; the item's type and the fields are given.
unfoldable pub value_type : Keywords → Option Text → Text → Option (List (Text × Field)) → Text
value_type k type_ item fields = elim k.const [
  | some j ↦ literal j
  | none ↦ elim k.enum [
    | some js ↦ join (codes " | ") (map literal js)
    | none ↦ elim type_ [
      | none ↦ codes "unknown"
      | some t ↦
          if text_eq t (codes "array")
          then codes "Array<" ++ (item ++ codes ">")
          else if text_eq t (codes "object")
          then elim fields [
            | none ↦ codes "Record<string, unknown>"
            | some fs ↦ inline_object fs (or_else k.required [])
          ]
          else if text_eq t (codes "integer") || text_eq t (codes "number")
          then codes "number"
          else if text_eq t (codes "boolean")
          then codes "boolean"
          else if text_eq t (codes "string")
          then codes "string"
          else if text_eq t (codes "null")
          then codes "null"
          else codes "unknown"
    ]
  ]
]

abbrev pub is_null : Text → Bool
is_null t = text_eq t (codes "null")

-- From the keyword `type` on.
unfoldable pub typed : Keywords → Text → Option (List (Text × Field)) → Text
typed k item fields = elim k.type_ [
  | untyped ↦ value_type k none item fields
  | one_type t ↦ value_type k (some t) item fields
  | type_list ts ↦ join (codes " | ") (
      map (λ t. value_type k (some t) item fields) (keep (λ t. not (is_null t)) ts)
      ++ map (λ t. codes "null") (keep is_null ts))
]

abbrev pub is_null_type : TypeKeyword → Bool
is_null_type (one_type t) = is_null t
is_null_type _ = false

-- A nullable `$ref`.
unfoldable pub nullable_ref : Option (List Alternative) → Option Text
nullable_ref (some (target ∷ nullable ∷ [])) = elim target.ref [
  | none ↦ none
  | some ref ↦
      if is_null_type nullable.type_
      then some (type_name (ref_target ref) ++ codes " | null")
      else none
]
nullable_ref _ = none

-- `tsType`, of a schema whose parts are written already.
unfoldable pub schema_type : Keywords → Text → Option (List (Text × Field)) → Text
schema_type k item fields = elim k.ref [
  | some ref ↦ type_name (ref_target ref)
  | none ↦ elim k.one_of [
    | some refs ↦ join (codes " | ") (map ref_name refs)
    | none ↦ or_else (nullable_ref k.any_of) (typed k item fields)
  ]
]

unfoldable mutual
  pub ts_type : JsonSchema → Text
  ts_type (schema k its ps) = schema_type k (item_type its) (fields_of ps)

  -- `tsType(schema.items ?? {})`
  pub item_type : SchemaItems → Text
  item_type no_items = codes "unknown"
  item_type (items s) = ts_type s

  pub fields_of : Properties → Option (List (Text × Field))
  fields_of no_properties = none
  fields_of (properties ps) = some (field_list ps)

  pub field_list : PropertyList → List (Text × Field)
  field_list no_more = []
  field_list (property key (schema k its ps) more) =
      (
        key,
        record {
          annotation = annotation_of k.target_types;
          type_ = schema_type k (item_type its) (fields_of ps);
        },
      )
      ∷ field_list more

unfoldable pub doc_comment : Option Text → Text
doc_comment none = []
doc_comment (some description) = codes "/** " ++ (escape_close description ++ codes " */\n")

unfoldable pub interface_body : List (Text × Field) → List Text → Text
interface_body fields required =
    join (codes "\n")
      (map (λ f. codes "  " ++ (field_text required f ++ codes ";")) (sort_by_key fields))

unfoldable pub emit_fields : Text → Keywords → Option (List (Text × Field)) → Text
emit_fields name k none =
    doc_comment k.description ++ (codes "export type " ++ (name ++ codes " = unknown;"))
emit_fields name k (some fields) =
    doc_comment k.description
    ++ (codes "export interface "
        ++ (name
            ++ (codes " {\n"
                ++ (interface_body fields (or_else k.required [])
                    ++ ((if k.closed then [] else codes "\n  [k: string]: unknown;")
                        ++ codes "\n}")))))

unfoldable pub emit_interface : Text → JsonSchema → Text
emit_interface name (schema k its ps) = emit_fields name k (fields_of ps)

abbrev pub Def : Type 0
Def = Text × JsonSchema

unfoldable pub declarations : List Def → List Text
declarations defs = map (λ (d : Def). emit_interface (type_name d.0) d.1) (sort_by_key defs)

unfoldable pub is_union : JsonSchema → Bool
is_union (schema k its ps) = is_some k.one_of

unfoldable pub union_alias : Text → Option JsonSchema → Text
union_alias name none = []
union_alias name (some (schema k its ps)) = elim k.one_of [
  | none ↦ []
  | some refs ↦
      codes "export type "
      ++ (name ++ (codes " =\n  | " ++ (join (codes "\n  | ") (map ref_name refs) ++ codes ";")))
]

unfoldable pub document_union : List Text → Text
document_union [] = []
document_union (name ∷ names) =
    codes "export type KilnDocument =\n  | "
    ++ (join (codes "\n  | ") (map type_name (sort_names (name ∷ names))) ++ codes ";")

unfoldable pub header : Text → Text
header version =
    codes
      "// Generated by `kiln-types`. Do not edit.\n//\n// The `:json` fired-artifact shape served by\n// `GET /api/content/:type/:slug?surface=json`.\n//\n// Artifact format version: "
    ++ (version ++ codes "\n")

-- `text.repeat(n)`
abbrev pub repeat_text : Text → ℕ → Text
repeat_text s zero = []
repeat_text s (suc n) = s ++ repeat_text s n

abbrev pub full : Text → Bool
full s = not (is_empty s)

unfoldable pub section_of : Text → List Text → Text
section_of title kept =
    codes "\n// -- "
    ++ (title
        ++ (codes " "
            ++ (repeat_text (codes "-") (60 - length title)
                ++ (codes "\n\n" ++ (join (codes "\n\n") kept ++ codes "\n")))))

abbrev pub section_kept : Text → List Text → Text
section_kept title [] = []
section_kept title (d ∷ ds) = section_of title (d ∷ ds)

unfoldable pub section : Text → List Text → Text
section title decls = section_kept title (keep full decls)

abbrev pub is_block : Def → Bool
is_block d = starts (codes "block_") d.0

abbrev pub is_content : Def → Bool
is_content d = starts (codes "content_") d.0

abbrev pub is_shared : Def → Bool
is_shared d = not (is_block d) && not (is_content d)

abbrev pub plain_defs : (Def → Bool) → List Def → List Def
plain_defs kind defs = keep (λ (d : Def). not (is_union d.1)) (keep kind defs)

abbrev pub def_of : Text → List Def → Option JsonSchema
def_of name [] = none
def_of name (d ∷ ds) = if text_eq d.0 name then some d.1 else def_of name ds

-- `defs` are the entries of `$defs`, and `version` what `String` prints of the format version, or
-- `unknown`.
unfoldable pub emit_types : Text → List Def → Text
emit_types version defs = join (codes "\n") (
    keep full (
      header version
      ∷ section (codes "Shared") (declarations (plain_defs is_shared defs))
      ∷ section (codes "Blocks") (declarations (plain_defs is_block defs))
      ∷ section (codes "Block union")
          (union_alias (codes "KilnBlock") (def_of (codes "block") defs) ∷ [])
      ∷ section (codes "Documents") (declarations (keep is_content defs))
      ∷ section (codes "Document union")
          (document_union (map (λ (d : Def). d.0) (keep is_content defs)) ∷ [])
      ∷ []))
