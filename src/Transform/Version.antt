-- ===== src/Transform/Version.antt =====
-- The version pin of clients/js/src/transform.ts: `transformVersion`, `milli` and `fnv1a32`.
pub mod Pin
use Prim.Native.Nat.{bit_xor}
use kiln_cms.Prelude.{
  ℕ, zero, suc, ◌+◌, ◌-◌, ◌*◌, ◌/◌, ◌%◌, ◌^◌, Bool, true, false, ◌&&◌, not, Option, none, some,
  List, [], ◌∷◌, ◌++◌, Text, codes, show, ltb, leb, ◌==◌, length, if◌then◌else◌,
}
use kiln_cms.Transform.{Milli, TransformMedia}

-- `Math.sign(value) * Math.round(Math.abs(value)) + 0`: the magnitude, halves rounded away from zero
unfoldable pub round_half : ℕ → ℕ → ℕ
round_half num den = (2 * num + den) / (2 * den)

-- `milli`, as its sign and magnitude; a missing coordinate reads as the centre
unfoldable pub milli : Option Milli → Bool × ℕ
unfolding round_half
milli none = (false, 500)
milli (some m) = (m.negative, round_half m.num (suc m.den_pred))

-- `+ 0` makes a zero print without a sign
unfoldable pub print_signed : Bool × ℕ → Text
print_signed (negative, n) = if negative && not (n == 0) then b'-' ∷ show n else show n

-- `new TextEncoder().encode(…)`: UTF-8, where a lone surrogate becomes U+FFFD
abbrev is_high : ℕ → Bool
is_high c = leb 0xd800 c && ltb c 0xdc00

abbrev is_low : ℕ → Bool
is_low c = leb 0xdc00 c && ltb c 0xe000

utf8_unit : ℕ → List ℕ
utf8_unit c =
    if ltb c 0x80
    then c ∷ []
    else if ltb c 0x800
    then (192 + c / 64) ∷ (128 + c % 64) ∷ []
    else if is_high c
    then 0xef ∷ 0xbf ∷ 0xbd ∷ []
    else if is_low c
    then 0xef ∷ 0xbf ∷ 0xbd ∷ []
    else (224 + c / 4096) ∷ (128 + c / 64 % 64) ∷ (128 + c % 64) ∷ []

utf8_pair : ℕ → ℕ → List ℕ
utf8_pair h l =
    let c = 0x10000 + (h - 0xd800) * 1024 + (l - 0xdc00) in
    (240 + c / 262144) ∷ (128 + c / 4096 % 64) ∷ (128 + c / 64 % 64) ∷ (128 + c % 64) ∷ []

unfoldable pub utf8 : Text → List ℕ
unfolding utf8_unit utf8_pair
utf8 [] = []
utf8 (c ∷ []) = utf8_unit c
utf8 (c ∷ d ∷ s) =
    let alone = utf8_unit c ++ utf8 (d ∷ s) in
    let paired = utf8_pair c d ++ utf8 s in if is_high c && is_low d then paired else alone

-- `hash ^= byte; hash = Math.imul(hash, 0x01000193) >>> 0`
unfoldable pub fnv_from : ℕ → List ℕ → ℕ
fnv_from hash [] = hash
fnv_from hash (byte ∷ bytes) = fnv_from (bit_xor hash byte * 0x01000193 % 2 ^ 32) bytes

unfoldable pub fnv1a32 : List ℕ → ℕ
unfolding fnv_from
fnv1a32 bytes = fnv_from 0x811c9dc5 bytes

abbrev pub hex_digit : ℕ → ℕ
hex_digit d = if ltb d 10 then d + b'0' else d + 87

-- `toString(16)`, with fuel
unfoldable pub hex_from : ℕ → ℕ → Text
hex_from zero n = hex_digit (n % 16) ∷ []
hex_from (suc f) n =
    let rest = hex_from f (n / 16) in
    if ltb n 16 then hex_digit n ∷ [] else rest ++ hex_digit (n % 16) ∷ []

-- a 32-bit number has eight digits at most
unfoldable pub hex : ℕ → Text
unfolding hex_from
hex n = hex_from 8 n

unfoldable pub pad_start : ℕ → ℕ → Text → Text
pad_start zero c s = s
pad_start (suc n) c s = if ltb n (length s) then s else c ∷ pad_start n c s

-- `input`
unfoldable pub pin_input : Text → TransformMedia → Text
unfolding milli print_signed
pin_input url media =
    url
    ++ (b'|' ∷ (print_signed (milli media.focal_x) ++ (b'|' ∷ print_signed (milli media.focal_y))))

unfoldable pub transform_version : TransformMedia → Option Text
transform_version media = elim media.url [
  | none ↦ none
  | some url ↦ some (pad_start 8 b'0' (hex (fnv1a32 (utf8 (pin_input url media)))))
]
