-- ===== src/Webhooks.antt =====
-- The verification of a webhook delivery, clients/js/src/webhooks.ts. Web Crypto's HMAC is a
-- parameter; so is the clock, where no time is given.
pub mod Verify
use kiln_cms.Prelude.{
  ℕ, suc, ◌+◌, ◌-◌, ◌*◌, ◌/◌, ◌%◌, Bool, true, false, not, ◌&&◌, ◌||◌, Option, none, some, or_else,
  List, [], ◌∷◌, ◌++◌, map, keep, any, all, length, Text, codes, is_digit, read, show, split_on,
  text_eq, is_empty, trim, trim_start, trim_end, lower, ◌==◌, ltb, if◌then◌else◌, zero, Result, err,
  ok,
}
use kiln_cms.Transform.Version.{utf8, hex, pad_start}

-- A whole number: `negsuc n` is `-(n + 1)`.
pub data ℤ : Type 0 where
  pos negsuc : ℕ → ℤ

pub record Signature : Type 0 where
  pub timestamp : ℤ
  pub candidates : List Text

pub data Reason : Type 0 where
  malformed expired mismatch : Reason

pub data Verification : Type 0 where
  verified : Verification
  refused : Reason → Verification

-- A body as it was received: text, or bytes.
pub data RawBody : Type 0 where
  text : Text → RawBody
  bytes : List ℕ → RawBody

-- `globalThis.crypto.subtle` is missing.
pub data CryptoError : Type 0 where
  no_web_crypto : CryptoError

-- The default window, in seconds.
abbrev pub webhook_tolerance_seconds : ℕ
webhook_tolerance_seconds = 300

-- `[trimmed.slice(0, eq), trimmed.slice(eq + 1)]`, where there is a `=`
unfoldable pub split_pair : Text → Option (Text × Text)
split_pair [] = none
split_pair (c ∷ s) =
    let rest = split_pair s in
    if c == b'=' then some ([], s) else elim rest [ none ↦ none | some (k, v) ↦ some (c ∷ k, v) ]

unfoldable pub pair_of : Text → Text × Text
pair_of part = or_else (split_pair (trim part)) ([], [])

abbrev pub is_timestamp : Text × Text → Bool
is_timestamp p = text_eq p.0 (codes "t")

abbrev pub is_candidate : Text × Text → Bool
is_candidate p = text_eq p.0 (codes "v1") && not (is_empty p.1)

-- /^-?\d+$/
unfoldable pub is_whole : Text → Bool
is_whole [] = false
is_whole (c ∷ s) = if c == b'-' then not (is_empty s) && all is_digit s else all is_digit (c ∷ s)

-- `Number(raw)` of such a text
unfoldable pub read_whole : Text → ℤ
read_whole [] = pos 0
read_whole (c ∷ s) =
    if c == b'-' then if read s == 0 then pos 0 else negsuc (read s - 1) else pos (read (c ∷ s))

unfoldable pub show_whole : ℤ → Text
show_whole (pos n) = show n
show_whole (negsuc n) = b'-' ∷ show (suc n)

abbrev pub second : Text × Text → Text
second p = p.1

unfoldable pub timestamps_of : Text → List Text
timestamps_of header = map second (keep is_timestamp (map pair_of (split_on b',' header)))

unfoldable pub candidates_of : Text → List Text
candidates_of header =
    map (λ p. lower (second p)) (keep is_candidate (map pair_of (split_on b',' header)))

unfoldable pub signature_from : List Text → List Text → Option Signature
signature_from (raw ∷ []) (c ∷ cs) =
    if is_whole raw then some (record { timestamp = read_whole raw; candidates = c ∷ cs }) else none
signature_from _ _ = none

unfoldable pub parse_signature : Text → Option Signature
parse_signature header = signature_from (timestamps_of header) (candidates_of header)

-- `Math.abs(now - timestamp)`
unfoldable pub distance : ℕ → ℤ → ℕ
distance now (pos t) = (now - t) + (t - now)
distance now (negsuc t) = now + suc t

abbrev pub body_bytes : RawBody → List ℕ
body_bytes (text s) = utf8 s
body_bytes (bytes bs) = bs

unfoldable pub concat : Text → RawBody → List ℕ
concat prefix body = utf8 prefix ++ body_bytes body

-- `byte.toString(16).padStart(2, "0")`, of each byte
unfoldable pub hex_bytes : List ℕ → Text
hex_bytes [] = []
hex_bytes (byte ∷ bs) = pad_start 2 b'0' (hex byte) ++ hex_bytes bs

-- Web Crypto takes a secret that is not empty.
unfoldable pub hmac_hex : (Text → List ℕ → List ℕ) → Text → List ℕ → Text
hmac_hex hmac secret data_ = hex_bytes (hmac (utf8 secret) data_)

-- `a ^ b` and `a | b`, bit by bit; as many steps as the greater number are enough.
unfoldable pub xor_from : ℕ → ℕ → ℕ → ℕ
xor_from zero a b = 0
xor_from (suc f) a b =
    let rest = xor_from f (a / 2) (b / 2) in (if a % 2 == b % 2 then 0 else 1) + 2 * rest

unfoldable pub or_from : ℕ → ℕ → ℕ → ℕ
or_from zero a b = 0
or_from (suc f) a b =
    let rest = or_from f (a / 2) (b / 2) in (if a % 2 == 0 && b % 2 == 0 then 0 else 1) + 2 * rest

unfoldable pub xor : ℕ → ℕ → ℕ
xor a b = xor_from (a + b) a b

unfoldable pub or : ℕ → ℕ → ℕ
or a b = or_from (a + b) a b

-- The loop over two texts of one length.
unfoldable pub difference : ℕ → Text → Text → ℕ
difference diff (c ∷ a) (d ∷ b) = difference (or diff (xor c d)) a b
difference diff _ _ = diff

unfoldable pub constant_time_equal : Text → Text → Bool
constant_time_equal a b = if not (length a == length b) then false else difference 0 a b == 0

-- `header ? parseSignature(header) : null`
abbrev pub parse_header : Option Text → Option Signature
parse_header none = none
parse_header (some header) = if is_empty header then none else parse_signature header

unfoldable pub match_candidates : Text → List Text → Verification
match_candidates expected candidates =
    if any (λ c. constant_time_equal c expected) candidates then verified else refused mismatch

-- `crypto` is `globalThis.crypto.subtle`, where there is one; `now` and `tolerance` are the options,
-- or the clock in seconds and the default window.
unfoldable pub verify_webhook :
    Option (Text → List ℕ → List ℕ)
    → Text
    → RawBody
    → Option Text
    → Option ℕ
    → ℕ
    → Result CryptoError Verification
verify_webhook crypto secret body header tolerance now = elim (parse_header header) [
  | none ↦ ok (refused malformed)
  | some parsed ↦
      if ltb (or_else tolerance webhook_tolerance_seconds) (distance now parsed.timestamp)
      then ok (refused expired)
      else elim crypto [
        | none ↦ err no_web_crypto
        | some hmac ↦ ok (
            match_candidates
              (hmac_hex hmac secret (concat (show_whole parsed.timestamp ++ codes ".") body))
              parsed.candidates)
      ]
]
