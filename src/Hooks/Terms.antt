-- ===== src/Hooks/Terms.antt =====
-- `TermPicker` of assets/js/app.js: the box that adds to a list field; and the keys of `TagFilter` and
-- `InlineCreate`.
pub mod Clean
use kiln_cms.Prelude.{
  ℕ, ◌-◌, Bool, true, false, not, ◌&&◌, ◌||◌, Option, none, some, List, [], ◌∷◌, ◌++◌, map, keep,
  any, Text, codes, split_on, text_eq, trim, trim_start, trim_end, is_empty, ltb, show, ◌==◌,
  if◌then◌else◌,
}

abbrev pub newline : ℕ
newline = 10

abbrev pub carriage_return : ℕ
carriage_return = 13

-- `/\r?\n/` splits where `/\n/` does, and takes a carriage return before it along.
unfoldable pub without_returns : Text → Text
without_returns [] = []
without_returns (c ∷ []) = c ∷ []
without_returns (c ∷ d ∷ s) =
    let rest = without_returns (d ∷ s) in
    if c == carriage_return && d == newline then rest else c ∷ rest

-- `/[,\n]/` splits where `/\n/` does once each comma is a line break.
abbrev pub commas_to_newlines : Text → Text
commas_to_newlines [] = []
commas_to_newlines (c ∷ s) = (if c == b',' then newline else c) ∷ commas_to_newlines s

-- The argument `lines` is whether the field holds phrases.
unfoldable pub split_terms : Bool → Text → List Text
split_terms true text = split_on newline (without_returns text)
split_terms false text = split_on newline (commas_to_newlines text)

abbrev pub is_full : Text → Bool
is_full item = not (is_empty item)

-- `push`: the items that are added.
unfoldable pub terms_of : Bool → Text → List Text
terms_of lines text = keep is_full (map (λ item. trim item) (split_terms lines text))

-- What a key or a paste does: the items that are added, the index of an item that is removed, the text
-- that is left in the box, and whether the default is prevented.
pub record TermResult : Type 0 where
  pub added : List Text
  pub removed : Option ℕ
  pub value : Text
  pub prevented : Bool

pub data TermKey : Type 0 where
  enter_key comma_key backspace_key other_key : TermKey

abbrev pub adds : Bool → TermKey → Bool
adds lines enter_key = true
adds lines comma_key = not lines
adds lines _ = false

abbrev pub untouched : Text → TermResult
untouched value = record { added = []; removed = none; value = value; prevented = false }

unfoldable pub add_terms : Bool → Bool → Text → TermResult
add_terms lines prevented value = record {
  added = terms_of lines value;
  removed = none;
  value = [];
  prevented = prevented;
}

abbrev pub on_backspace : ℕ → Text → TermKey → TermResult
on_backspace count value backspace_key =
    if is_empty value && ltb 0 count
    then record { added = []; removed = some (count - 1); value = value; prevented = true }
    else untouched value
on_backspace count value _ = untouched value

-- The keydown listener; `count` is the number of items.
unfoldable pub on_term_key : Bool → ℕ → Bool → TermKey → Text → TermResult
on_term_key lines count composing pressed value =
    if composing
    then untouched value
    else if adds lines pressed
    then add_terms lines true value
    else on_backspace count value pressed

-- The paste listener, where the clipboard has text: a text of several lines is several items.
unfoldable pub on_term_paste : Bool → Text → Text → TermResult
on_term_paste lines pasted value =
    if any (λ c. c == newline) (trim pasted)
    then record {
      added = terms_of lines (value ++ pasted);
      removed = none;
      value = [];
      prevented = true;
    }
    else untouched value

-- The kinds of input that a pick from the datalist has.
abbrev pub is_pick : Option Text → Bool
is_pick none = true
is_pick (some input_type) =
    is_empty input_type || text_eq input_type (codes "insertReplacementText")

unfoldable pub on_term_input : Bool → Option Text → Text → TermResult
on_term_input lines input_type value =
    if not lines && is_pick input_type then add_terms lines false value else untouched value

-- Enter in the filter of the tags: the name of the tag that is added. The default is prevented always.
unfoldable pub tag_on_enter : Bool → Text → Option Text
tag_on_enter composing value =
    if composing || is_empty (trim value) then none else some (trim value)
