-- ===== src/Generator/Names.antt =====
-- Names, keys and escapes of clients/js/src/generator.ts.
use kiln_cms.Prelude.{
  ℕ, ◌-◌, Bool, true, false, not, ◌&&◌, ◌||◌, List, [], ◌∷◌, ◌++◌, map, keep, all, length, drop,
  Text, codes, starts, split_on, text_eq, is_empty, is_digit, lower, ◌==◌, ltb, leb, if◌then◌else◌,
}

-- `text.replace(/c/g, by)`
abbrev pub replace_char : ℕ → Text → Text → Text
replace_char c by [] = []
replace_char c by (d ∷ s) =
    let rest = replace_char c by s in if d == c then by ++ rest else d ∷ rest

abbrev pub backslash : ℕ
backslash = 92

abbrev pub quote : ℕ
quote = 34

-- A backslash and a character
abbrev pub escaped : ℕ → Text
escaped c = backslash ∷ c ∷ []

unfoldable pub escape_string : Text → Text
escape_string value = replace_char 9 (escaped b't') (
    replace_char 13 (escaped b'r') (
      replace_char 10 (escaped b'n')
        (replace_char quote (escaped quote) (replace_char backslash (escaped backslash) value))))

-- `text.replace(/\*\//g, "*\\/")`
unfoldable pub escape_close : Text → Text
escape_close [] = []
escape_close (c ∷ []) = c ∷ []
escape_close (c ∷ d ∷ s) =
    let after = escape_close s in
    let rest = escape_close (d ∷ s) in
    if c == b'*' && d == b'/' then b'*' ∷ backslash ∷ b'/' ∷ after else c ∷ rest

abbrev is_letter : ℕ → Bool
is_letter c = (leb b'a' c && leb c b'z') || (leb b'A' c && leb c b'Z')

abbrev is_name_start : ℕ → Bool
is_name_start c = is_letter c || c == b'_' || c == b'$'

-- /^[A-Za-z_$][A-Za-z0-9_$]*$/
abbrev pub is_identifier : Text → Bool
is_identifier [] = false
is_identifier (c ∷ s) = is_name_start c && all (λ d. is_name_start d || is_digit d) s

unfoldable pub property_key : Text → Text
property_key key =
    if is_identifier key then key else codes "\"" ++ (escape_string key ++ codes "\"")

abbrev pub last_part : List Text → Text
last_part [] = []
last_part (w ∷ []) = w
last_part (w ∷ v ∷ ws) = last_part (v ∷ ws)

unfoldable pub ref_target : Text → Text
ref_target ref = last_part (split_on b'/' ref)

-- `word.charAt(0).toUpperCase() + word.slice(1).toLowerCase()`
abbrev pub capitalized : Text → Text
capitalized [] = []
capitalized (c ∷ s) = (if leb b'a' c && leb c b'z' then c - 32 else c) ∷ lower s

-- `-` is read as `_`, so that one character separates.
abbrev pub underscores : Text → Text
underscores [] = []
underscores (c ∷ s) = (if c == b'-' then b'_' else c) ∷ underscores s

abbrev pub all_capitalized : List Text → Text
all_capitalized [] = []
all_capitalized (w ∷ ws) = capitalized w ++ all_capitalized ws

unfoldable pub pascal : Text → Text
pascal name = all_capitalized (keep (λ w. not (is_empty w)) (split_on b'_' (underscores name)))

unfoldable pub type_name : Text → Text
type_name name =
    if text_eq name (codes "block")
    then codes "KilnBlock"
    else if starts (codes "block_") name
    then pascal (drop (length (codes "block_")) name) ++ codes "Block"
    else if starts (codes "content_") name
    then pascal (drop (length (codes "content_")) name) ++ codes "Document"
    else pascal name

-- `a < b`, by code units
abbrev pub text_lt : Text → Text → Bool
text_lt [] [] = false
text_lt [] (d ∷ t) = true
text_lt (c ∷ s) [] = false
text_lt (c ∷ s) (d ∷ t) = ltb c d || (c == d && text_lt s t)

-- `entries.sort` by key; it keeps the order of equal keys.
unfoldable pub insert_by_key {ℓ} : {A : Type ℓ} → Text × A → List (Text × A) → List (Text × A)
insert_by_key e [] = e ∷ []
insert_by_key e (f ∷ es) =
    let rest = insert_by_key e es in if text_lt f.0 e.0 then f ∷ rest else e ∷ f ∷ es

unfoldable pub sort_by_key {ℓ} : {A : Type ℓ} → List (Text × A) → List (Text × A)
sort_by_key [] = []
sort_by_key (e ∷ es) = insert_by_key e (sort_by_key es)

abbrev keyed : Text → Text × Bool
keyed name = (name, true)

abbrev key_of : Text × Bool → Text
key_of e = e.0

unfoldable pub sort_names : List Text → List Text
sort_names names = map key_of (sort_by_key (map keyed names))
