-- ===== src/Transform/Version/Pin.antt =====
-- What a version pin looks like.
use native.Mathlib.Nat.{div-add-mod, mod-lt, pow-suc}
use Prim.Native.Nat.{bit_xor}
use kiln_cms.Prelude.{
  ℕ, zero, suc, ◌+◌, ◌*◌, ◌^◌, ◌/◌, ◌%◌, ◌≤◌, ◌<◌, ◌≡◌, ◌↔◌, ◌⊎◌, inl, inr, Option-cases, subst,
  none, some, List, [], ◌∷◌, Text, All, All-append, Bool-cases, ltb, lt→ltb, length, length-append,
  arith,
}
use kiln_cms.Transform.{TransformMedia}
use kiln_cms.Transform.Version.{
  round_half, fnv_from, fnv1a32, hex_digit, hex_from, hex, pad_start, utf8, pin_input,
  transform_version,
}

-- A digit of `0123456789abcdef`.
abbrev pub IsHex : ℕ → Type 0
IsHex c = ((b'0' ≤ c) × (c ≤ b'9')) ⊎ ((b'a' ≤ c) × (c ≤ b'f'))

hex_digit-IsHex : (d : ℕ) → d < 16 → IsHex (hex_digit d)
hex_digit-IsHex d h = elim (Bool-cases (ltb d 10)) [
  | inl small ↦ rw small (inl (ground arith))
  | inr large ↦ rw large (inr (ground arith))
]

hex_from-IsHex : (f n : ℕ) → All IsHex (hex_from f n)
unfolding hex_from
hex_from-IsHex zero n = (hex_digit-IsHex (n % 16) (omega arith), tt)
hex_from-IsHex (suc f) n = elim (Bool-cases (ltb n 16)) [
  | inl small ↦ rw small (hex_digit-IsHex n (ground arith), tt)
  | inr large ↦ rw large (
      All-append IsHex (hex_from f (n / 16)) _ (hex_from-IsHex f (n / 16))
        (hex_digit-IsHex (n % 16) (omega arith), tt))
]

-- With bound 16 * 16 ^ k a number has at most k + 1 digits.
length-hex_from : (k f n : ℕ) → n < 16 * 16 ^ k → k ≤ f → length (hex_from f n) ≤ k + 1
unfolding hex_from
length-hex_from k zero n h q = omega arith
length-hex_from zero (suc f) n h q = rw (lt→ltb n 16 (omega arith)) (omega arith)
length-hex_from (suc k) (suc f) n h q = elim (Bool-cases (ltb n 16)) [
  | inl small ↦ rw small (omega arith)
  | inr large ↦ rw large (
      omega (
        arith,
        length-append (hex_from f (n / 16)) (hex_digit (n % 16) ∷ []),
        length-hex_from k f (n / 16) (omega (arith, pow-suc 16 k)),
      ))
]

fnv_from-lt : (hash : ℕ) (bytes : List ℕ) → hash < 2 ^ 32 → fnv_from hash bytes < 2 ^ 32
unfolding fnv_from
fnv_from-lt hash [] h = h
fnv_from-lt hash (byte ∷ bytes) h =
    fnv_from-lt (bit_xor hash byte * 0x01000193 % 2 ^ 32) bytes (omega arith)

length-pad_start : (n c : ℕ) (s : Text) → length s ≤ n → length (pad_start n c s) ≡ n
unfolding pad_start
length-pad_start zero c s h = omega arith
length-pad_start (suc n) c s h = ground (arith, length-pad_start n c s)

pad_start-IsHex : (n : ℕ) (s : Text) → All IsHex s → All IsHex (pad_start n b'0' s)
unfolding pad_start
pad_start-IsHex zero s h = h
pad_start-IsHex (suc n) s h = elim (Bool-cases (ltb n (length s))) [
  | inl full ↦ rw full h
  | inr short ↦ rw short (inl (omega arith), pad_start-IsHex n s h)
]

-- The rounded coordinate is the nearest whole number; a tie goes away from zero.
pub round_half-nearest :
    (num d : ℕ)
    → (2 * num < 2 * (round_half num (suc d) * suc d) + suc d)
      × (2 * (round_half num (suc d) * suc d) ≤ 2 * num + suc d)
unfolding round_half
round_half-nearest num d = omega (
  arith,
  div-add-mod (2 * num + suc d) (2 * suc d),
  mod-lt (2 * num + suc d) {m = 2 * suc d} (omega arith),
)

pin-IsHex :
    (bytes : List ℕ)
    → let v = pad_start 8 b'0' (hex (fnv1a32 bytes)) in (length v ≡ 8) × All IsHex v
unfolding fnv1a32 hex
pin-IsHex bytes =
    let hash = fnv_from 0x811c9dc5 bytes in
    let short =
      length-hex_from 7 8 hash (fnv_from-lt 0x811c9dc5 bytes (omega arith)) (omega arith) in
    (
      length-pad_start 8 b'0' (hex_from 8 hash) short,
      pad_start-IsHex 8 (hex_from 8 hash) (hex_from-IsHex 8 hash),
    )

-- An item with no `url` has no pin. Any other has one of exactly eight digits of
-- `0123456789abcdef`.
transform_version-IsHex :
    (media : TransformMedia)
    → ((transform_version media ≡ none) ↔ (media.url ≡ none))
      × ((v : Text) → transform_version media ≡ some v → (length v ≡ 8) × All IsHex v)
unfolding transform_version
transform_version-IsHex media = elim (Option-cases media.url) [
  | inl missing ↦ (ground arith, λ v e. cc (rw (missing, transform_version) at e))
  | inr (url, given) ↦ (
    ground arith,
    λ v e.
        subst (λ (t : Text). (length t ≡ 8) × All IsHex t) (ground arith)
          (pin-IsHex (utf8 (pin_input url media))),
  )
]
