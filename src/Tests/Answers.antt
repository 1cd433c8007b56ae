-- ===== src/Tests/Answers.antt =====
-- Runs of the client's errors, documents and webhooks.
use kiln_cms.Prelude.{
  ℕ, ◌≡◌, ◌⊎◌, ◌↔◌, refl, true, false, Option, none, some, or_else, List, [], ◌∷◌, Text, codes, err,
  ok, any, length, show, show_from, read, read_from, trim_start, trim_end, split_on, arith,
}
use kiln_cms.Json.{Json, null, str, arr, obj, no_items, item, no_fields, field, lookup}
use kiln_cms.Errors.{
  KilnHttpError, not_a_function, error_objects, new_http_error, http_error, pointer_of, field_of,
  message_of, push_message, group_errors, form_field_errors, field_errors,
}
use kiln_cms.JsonApi.{
  RawDocument, many, Item, ref_key, relationships_from, flatten_resource, include_from,
  flatten_document, rel, resolve,
}
use kiln_cms.JsonApi.Included.{found_by, resolve-find_last}
use kiln_cms.Transform.Version.{utf8, hex, hex_from, pad_start}
use kiln_cms.Webhooks.{
  text, verified, refused as turned_down, malformed, split_pair, pair_of, timestamps_of,
  candidates_of, signature_from, is_whole, read_whole, show_whole, parse_signature, distance,
  concat, hex_bytes, hmac_hex, xor_from, or_from, xor, or, difference, constant_time_equal,
  match_candidates, verify_webhook,
}
use kiln_cms.Webhooks.Verify.{IsAuthentic, verify_webhook-IsAuthentic_iff}
use kiln_cms.Errors.ByField.{messages_for, names_inherited, field_errors-groups}

abbrev problem : Text → Text → Json
problem pointer detail = obj (
    field (codes "detail") (str detail)
      (field (codes "source") (obj (field (codes "pointer") (str pointer) no_fields)) no_fields))

abbrev refusal : Json
refusal = obj (
    field (codes "errors")
      (arr (
        item (problem (codes "/data/attributes/slug") (codes "is taken")) (
          item null (
            item (problem (codes "/data/attributes/title") (codes "is required"))
              (item (problem (codes "/data/attributes/slug") (codes "is short")) no_items)))))
      no_fields)

abbrev refused : KilnHttpError
refused = http_error 422 (codes "/u") refusal none

groups_by_field :
    field_errors refused
    ≡ ok (
        (codes "slug", str (codes "is taken") ∷ str (codes "is short") ∷ [])
        ∷ (codes "title", str (codes "is required") ∷ [])
        ∷ [])
unfolding field_errors form_field_errors group_errors push_message pointer_of field_of message_of
    http_error new_http_error error_objects
groups_by_field = refl

throws_on_constructor :
    group_errors (problem (codes "/data/attributes/constructor") (codes "is odd") ∷ []) []
    ≡ err not_a_function
unfolding group_errors push_message pointer_of field_of message_of
throws_on_constructor = refl

refused-unformed : form_field_errors refused.body ≡ none
unfolding form_field_errors http_error new_http_error
refused-unformed = refl

field_errors-groups_example :
    ((any names_inherited refused.errors ≡ true) × (field_errors refused ≡ err not_a_function))
    ⊎ ((any names_inherited refused.errors ≡ false)
        × ((g : List (Text × List Json)) × (field_errors refused ≡ ok g)
            × ((name : Text) → or_else (lookup name g) [] ≡ messages_for name refused.errors)))
field_errors-groups_example = field_errors-groups refused refused-unformed

abbrev date_header : Text
date_header = codes "Wed, 21 Oct"

abbrev parse_date : Text → Option ℕ
parse_date s = some 5500

abbrev doc : RawDocument
doc = record {
  content = many (
      record {
        id = some (codes "1");
        type_ = some (codes "post");
        attributes = none;
        relationships = none;
      }
      ∷ []);
  included = some (
      record {
        id = some (codes "7");
        type_ = some (codes "tag");
        attributes = none;
        relationships = none;
      }
      ∷ []);
  total = none;
}

abbrev post : Item
post = record {
  attributes = [];
  id = codes "1";
  type_ = codes "post";
  relationships =
      (
        codes "tags",
        record { type_ = codes "tag"; id = codes "7" }
            ∷ record { type_ = codes "tag"; id = codes "8" }
            ∷ [],
      )
      ∷ [];
}

tag : Item
tag = record { attributes = []; id = codes "7"; type_ = codes "tag"; relationships = [] }

resolves_a_tag : resolve post (codes "tags") (flatten_document doc).included ≡ ok (tag ∷ [])
unfolding resolve rel flatten_document include_from flatten_resource relationships_from ref_key tag
resolves_a_tag = refl

resolve-find_last_example :
    resolve post (codes "tags") (flatten_document doc).included
    ≡ found_by (rel post (codes "tags")) doc
unfolding flatten_resource rel
resolve-find_last_example =
    resolve-find_last doc _ post (codes "tags") refl (ground arith) (ground arith)

resolves_inherited :
    resolve post (codes "constructor") (flatten_document doc).included ≡ err not_a_function
unfolding resolve rel
resolves_inherited = refl

-- A stand-in for the HMAC.
abbrev hmac : Text → List ℕ → List ℕ
hmac secret message = length message ∷ 255 ∷ []

abbrev signed : Text
signed = codes "t=100, v1=00FF , v1=04ff"

accepts_signed :
    verify_webhook (some hmac) (codes "s") (text []) (some signed) none 103 ≡ ok verified
unfolding verify_webhook parse_signature timestamps_of candidates_of split_on pair_of split_pair
    trim_start trim_end signature_from is_whole read_whole read read_from distance match_candidates
    constant_time_equal difference or xor or_from xor_from hmac_hex hex_bytes concat show_whole show
    show_from utf8 hex hex_from pad_start
accepts_signed = refl

refuses_two_timestamps :
    verify_webhook (some hmac) (codes "s") (text []) (some (codes "t=1,t=1,v1=00")) none 1
    ≡ ok (turned_down malformed)
unfolding verify_webhook parse_signature timestamps_of candidates_of split_on pair_of split_pair
    trim_start trim_end signature_from
refuses_two_timestamps = refl

verify_webhook-IsAuthentic_iff_example :
    (verify_webhook (some hmac) (codes "s") (text []) (some signed) none 103 ≡ ok verified)
    ↔ IsAuthentic hmac (codes "s") (text []) (some signed) 300 103
verify_webhook-IsAuthentic_iff_example =
    verify_webhook-IsAuthentic_iff hmac (codes "s") (text []) (some signed) none 103
