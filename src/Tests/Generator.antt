-- ===== src/Tests/Generator.antt =====
-- Runs of the type generator.
use kiln_cms.Prelude.{◌≡◌, refl, false, none, some, [], ◌∷◌, ◌++◌, Text, codes, join, split_on}
use kiln_cms.Json.{str}
use kiln_cms.Generator.Names.{quote, escape_string, property_key, ref_target, type_name, pascal}
use kiln_cms.Generator.{
  literal, annotation_of, doc_comment, TypeKeyword, type_list, Keywords, schema, no_items,
  no_properties, ts_type, schema_type, typed, value_type, nullable_ref,
}
use kiln_cms.Generator.Escapes.{read_literal, literal-read_literal, IsInside, comments-closed}

names_a_block : type_name (codes "block_rich_text") ≡ codes "RichTextBlock"
unfolding type_name pascal split_on
names_a_block = refl

names_a_target : type_name (ref_target (codes "#/$defs/content_post")) ≡ codes "PostDocument"
unfolding type_name ref_target pascal split_on
names_a_target = refl

quotes_a_key : property_key (codes "a\"b") ≡ codes "\"a\\\"b\""
unfolding property_key escape_string
quotes_a_key = refl

abbrev keywords : TypeKeyword → Keywords
keywords type_ = record {
  ref = none;
  one_of = none;
  any_of = none;
  type_ = type_;
  const = none;
  enum = some (str (codes "free") ∷ str (codes "pro") ∷ []);
  required = none;
  closed = false;
  description = none;
  target_types = none;
}

keeps_null :
    ts_type
      (schema (keywords (type_list (codes "string" ∷ codes "null" ∷ []))) no_items no_properties)
    ≡ codes "\"free\" | \"pro\" | null"
unfolding ts_type schema_type typed value_type literal escape_string join nullable_ref
keeps_null = refl

literal-read_literal_example :
    (body : Text) × (literal (str (codes "C:\\new \"x\"")) ++ codes ";" ≡ quote ∷ body)
    × (read_literal false body ≡ some (codes "C:\\new \"x\"", codes ";"))
literal-read_literal_example = literal-read_literal (codes "C:\\new \"x\"") (codes ";")

comments-closed_example :
    ((inner : Text) × (doc_comment (some (codes "a */ b")) ≡ codes "/*" ++ (inner ++ codes " */\n"))
      × IsInside inner)
    × ((inner : Text) × (annotation_of (some (str (codes "p*/") ∷ []))
          ≡ codes "/*" ++ (inner ++ codes " */ "))
        × IsInside inner)
comments-closed_example = comments-closed (codes "a */ b") (str (codes "p*/")) []
