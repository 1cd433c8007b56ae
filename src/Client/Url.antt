-- ===== src/Client/Url.antt =====
-- The encodings of a URL: `encodeURIComponent`, and the form encoding of `URLSearchParams`. A lone
-- surrogate, on which `encodeURIComponent` throws, is encoded as U+FFFD.
use kiln_cms.Prelude.{
  ℕ, ◌+◌, ◌/◌, ◌%◌, Bool, ◌||◌, ◌&&◌, List, [], ◌∷◌, ◌++◌, Text, codes, is_digit, any, ◌==◌, leb,
  ltb, if◌then◌else◌,
}
use kiln_cms.Transform.Version.{utf8}

abbrev is_letter : ℕ → Bool
is_letter c = (leb b'a' c && leb c b'z') || (leb b'A' c && leb c b'Z')

abbrev hex_upper : ℕ → ℕ
hex_upper d = if ltb d 10 then d + b'0' else d + 55

-- A byte as `%XX`
abbrev percent : ℕ → Text
percent byte = b'%' ∷ hex_upper (byte / 16) ∷ hex_upper (byte % 16) ∷ []

abbrev percent_encode : (ℕ → Bool) → List ℕ → Text
percent_encode is_safe [] = []
percent_encode is_safe (byte ∷ bs) =
    let rest = percent_encode is_safe bs in
    if is_safe byte then byte ∷ rest else percent byte ++ rest

abbrev is_unreserved : ℕ → Bool
is_unreserved c = is_letter c || is_digit c || any (λ d. d == c) (codes "-_.!~*'()")

unfoldable pub encode_component : Text → Text
encode_component s = percent_encode is_unreserved (utf8 s)

abbrev is_form_safe : ℕ → Bool
is_form_safe c = is_letter c || is_digit c || any (λ d. d == c) (codes "*-._")

abbrev spaces_to_plus : Text → Text
spaces_to_plus [] = []
spaces_to_plus (c ∷ s) = (if c == 32 then b'+' else c) ∷ spaces_to_plus s

-- Spaces are kept by the encoding, and become plus signs; a plus sign is encoded.
abbrev form_encode : Text → Text
form_encode s = spaces_to_plus (percent_encode (λ c. is_form_safe c || c == 32) (utf8 s))

-- `params.toString()`
unfoldable pub query_string : List (Text × Text) → Text
query_string [] = []
query_string ((k, v) ∷ []) = form_encode k ++ (codes "=" ++ form_encode v)
query_string ((k, v) ∷ p ∷ ps) =
    form_encode k ++ (codes "=" ++ (form_encode v ++ (codes "&" ++ query_string (p ∷ ps))))
