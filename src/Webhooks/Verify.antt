-- ===== src/Webhooks/Verify.antt =====
-- When a delivery is accepted.
use kiln_cms.Prelude.{
  ℕ, zero, suc, ◌+◌, ◌/◌, ◌%◌, ◌≤◌, ◌≡◌, ◌↔◌, refl, sym, ap, ap₂, ◌∙◌, Bool, true, false, ◌&&◌,
  ◌||◌, Option, none, some, some-injective, or_else, List, [], ◌∷◌, ◌++◌, any, length, Text, codes,
  text_eq, ◌==◌, ltb, if◌then◌else◌, trim_start, trim_end, split_on, le→ltb_false, Bool-cases,
  Option-cases, inl, inr, ok, ok-injective, arith,
}
use kiln_cms.Webhooks.{
  Signature, RawBody, verified, refused, expired, webhook_tolerance_seconds, show_whole, pair_of,
  split_pair, signature_from, timestamps_of, candidates_of, is_whole, read_whole, parse_signature,
  distance, concat, hmac_hex, xor_from, or_from, xor, or, difference, constant_time_equal,
  parse_header, match_candidates, verify_webhook,
}

xor_from-zero : (f a b : ℕ) → a ≤ f → b ≤ f → (xor_from f a b ≡ 0) ↔ (a ≡ b)
unfolding xor_from
xor_from-zero zero a b h k = ground arith
xor_from-zero (suc f) a b h k = elim (Bool-cases (a % 2 == b % 2)) [
  | inl same ↦ rw same (ground (arith, xor_from-zero f (a / 2) (b / 2) (omega arith) (omega arith)))
  | inr differ ↦ rw differ (ground (arith, differ))
]

or_from-zero : (f a b : ℕ) → a ≤ f → b ≤ f → (or_from f a b ≡ 0) ↔ ((a ≡ 0) × (b ≡ 0))
unfolding or_from
or_from-zero zero a b h k = ground arith
or_from-zero (suc f) a b h k = elim (Bool-cases (a % 2 == 0 && b % 2 == 0)) [
  | inl even ↦
      rw even (ground (arith, even, or_from-zero f (a / 2) (b / 2) (omega arith) (omega arith)))
  | inr odd ↦ rw odd (ground (arith, odd))
]

xor-zero : (a b : ℕ) → (xor a b ≡ 0) ↔ (a ≡ b)
unfolding xor
xor-zero a b = xor_from-zero (a + b) a b (omega arith) (omega arith)

or-zero : (a b : ℕ) → (or a b ≡ 0) ↔ ((a ≡ 0) × (b ≡ 0))
unfolding or
or-zero a b = or_from-zero (a + b) a b (omega arith) (omega arith)

difference-zero :
    (diff : ℕ) (a b : Text)
    → length a ≡ length b
    → (difference diff a b == 0) ≡ (diff == 0 && text_eq a b)
unfolding difference
difference-zero diff [] [] h = ground arith
difference-zero diff (c ∷ a) (d ∷ b) h =
    difference-zero (or diff (xor c d)) a b (omega (arith, h))
    ∙ ground (arith, or-zero diff (xor c d), xor-zero c d)
difference-zero diff [] (d ∷ b) h = ground (arith, h)
difference-zero diff (c ∷ a) [] h = ground (arith, h)

text_eq-length : (a b : Text) → (length a == length b) ≡ false → text_eq a b ≡ false
text_eq-length [] [] h = ground (arith, h)
text_eq-length [] (d ∷ b) h = refl
text_eq-length (c ∷ a) [] h = refl
text_eq-length (c ∷ a) (d ∷ b) h = ground (arith, text_eq-length a b (ground (arith, h)))

-- The comparison that looks at every code unit of both texts, whatever it finds, says just whether
-- they are equal.
pub constant_time_equal-text_eq : (a b : Text) → constant_time_equal a b ≡ text_eq a b
unfolding constant_time_equal
constant_time_equal-text_eq a b = elim (Bool-cases (length a == length b)) [
  | inl same ↦ rw same (difference-zero 0 a b (ground (arith, same)))
  | inr differ ↦ rw differ (sym (text_eq-length a b differ))
]

match_candidates-any :
    (expected : Text) (cs : List Text)
    → any (λ c. constant_time_equal c expected) cs ≡ any (λ c. text_eq c expected) cs
match_candidates-any expected [] = refl
match_candidates-any expected (c ∷ cs) =
    ap₂ (λ x y. x || y) (constant_time_equal-text_eq c expected) (match_candidates-any expected cs)

signature_from-some :
    (ts cs : List Text) {p : Signature}
    → signature_from ts cs ≡ some p
    → (raw : Text) × (ts ≡ raw ∷ [])
      × (is_whole raw ≡ true)
      × (p ≡ record { timestamp = read_whole raw; candidates = cs })
unfolding signature_from
signature_from-some [] cs e = ground (arith, e)
signature_from-some (raw ∷ []) [] e = ground (arith, e)
signature_from-some (raw ∷ []) (c ∷ cs) {p} e = elim (Bool-cases (is_whole raw)) [
  | inl whole ↦
      let f : record { timestamp = read_whole raw; candidates = c ∷ cs } ≡ p =
        some-injective _ _ (rw (whole, signature_from) at e) in
      (raw, refl, whole, sym f)
  | inr broken ↦ absurd (ground (arith, rw (broken, signature_from) at e))
]
signature_from-some (raw ∷ r ∷ ts) cs e = ground (arith, e)

-- A delivery that is authentic: its header has one timestamp, a whole number, which is in the window;
-- and one of its candidates, in whatever case, is the HMAC of the timestamp and the body.
pub data IsAuthentic (hmac : Text → List ℕ → List ℕ) (secret : Text) (body : RawBody)
    (header : Option Text) (tolerance now : ℕ) : Type 0 where
  authentic :
      (h raw : Text)
      → header ≡ some h
      → timestamps_of h ≡ raw ∷ []
      → is_whole raw ≡ true
      → distance now (read_whole raw) ≤ tolerance
      → any
          (λ c.
            text_eq c
              (hmac_hex hmac secret (concat (show_whole (read_whole raw) ++ codes ".") body)))
          (candidates_of h)
        ≡ true
      → IsAuthentic hmac secret body header tolerance now

parse_header-some :
    (header : Option Text) {p : Signature}
    → parse_header header ≡ some p
    → (h raw : Text) × (header ≡ some h)
      × (timestamps_of h ≡ raw ∷ [])
      × (is_whole raw ≡ true)
      × (p ≡ record { timestamp = read_whole raw; candidates = candidates_of h })
unfolding parse_signature
parse_header-some none e = ground (arith, e)
parse_header-some (some []) e = ground (arith, e)
parse_header-some (some (c ∷ h)) e =
    let (raw, one, whole, p_is) =
      signature_from-some (timestamps_of (c ∷ h)) (candidates_of (c ∷ h)) e in
    (c ∷ h, raw, refl, one, whole, p_is)

match_candidates-verified :
    (expected : Text) (cs : List Text)
    → (match_candidates expected cs ≡ verified) ↔ (any (λ c. text_eq c expected) cs ≡ true)
unfolding match_candidates
match_candidates-verified expected cs =
    rw (match_candidates-any expected cs) (elim (Bool-cases (any (λ c. text_eq c expected) cs)) [
      | inl hit ↦ rw hit (ground arith)
      | inr miss ↦ rw miss (ground arith)
    ])

-- What a parsed header's verification is.
verify_webhook-parsed :
    (hmac : Text → List ℕ → List ℕ) (secret : Text) (body : RawBody) (header : Option Text)
    (tolerance : Option ℕ) (now : ℕ) {p : Signature}
    → parse_header header ≡ some p
    → verify_webhook (some hmac) secret body header tolerance now ≡ (
        if ltb (or_else tolerance webhook_tolerance_seconds) (distance now p.timestamp)
        then ok (refused expired)
        else ok (
            match_candidates
              (hmac_hex hmac secret (concat (show_whole p.timestamp ++ codes ".") body))
              p.candidates))
unfolding verify_webhook
verify_webhook-parsed hmac secret body header tolerance now e = rw (e, verify_webhook) refl

verified-IsAuthentic :
    (hmac : Text → List ℕ → List ℕ) (secret : Text) (body : RawBody) (header : Option Text)
    (tolerance : Option ℕ) (now : ℕ)
    → verify_webhook (some hmac) secret body header tolerance now ≡ ok verified
    → IsAuthentic hmac secret body header (or_else tolerance webhook_tolerance_seconds) now
unfolding verify_webhook
verified-IsAuthentic hmac secret body header tolerance now e =
    elim (Option-cases (parse_header header)) [
      | inl unread ↦ absurd (ground (arith, rw (unread, verify_webhook) at e))
      | inr (p, read) ↦
          let (h, raw, is_h, one, whole, p_is) = parse_header-some header read in
          let e_ =
            sym (verify_webhook-parsed hmac secret body header tolerance now (read ∙ ap some p_is))
            ∙ e in
          elim (Bool-cases
            (ltb (or_else tolerance webhook_tolerance_seconds) (distance now (read_whole raw)))) [
              | inl late ↦ absurd (ground (arith, rw late at e_))
              | inr fresh ↦ authentic h raw is_h one whole (ground (arith, fresh)) (
                  (match_candidates-verified _ (candidates_of h)).0 (ok-injective (rw fresh at e_)))
            ]
    ]

signature_from-one :
    (raw : Text) (f : Text → Bool) (cs : List Text)
    → is_whole raw ≡ true
    → any f cs ≡ true
    → signature_from (raw ∷ []) cs ≡ some (record { timestamp = read_whole raw; candidates = cs })
unfolding signature_from
signature_from-one raw f [] whole hit = ground (arith, hit)
signature_from-one raw f (c ∷ cs) whole hit = rw whole refl

timestamps_of-nil : timestamps_of [] ≡ []
unfolding timestamps_of split_on pair_of split_pair trim_start trim_end
timestamps_of-nil = refl

parse_header-read :
    (h raw : Text) (f : Text → Bool)
    → timestamps_of h ≡ raw ∷ []
    → is_whole raw ≡ true
    → any f (candidates_of h) ≡ true
    → parse_header (some h)
      ≡ some (record { timestamp = read_whole raw; candidates = candidates_of h })
unfolding parse_signature
parse_header-read [] raw f one whole hit = absurd (ground (arith, sym timestamps_of-nil ∙ one))
parse_header-read (c ∷ h) raw f one whole hit =
    ap (λ ts. signature_from ts (candidates_of (c ∷ h))) one
    ∙ signature_from-one raw f (candidates_of (c ∷ h)) whole hit

IsAuthentic-verified :
    (hmac : Text → List ℕ → List ℕ) (secret : Text) (body : RawBody) (header : Option Text)
    (tolerance : Option ℕ) (now : ℕ)
    → IsAuthentic hmac secret body header (or_else tolerance webhook_tolerance_seconds) now
    → verify_webhook (some hmac) secret body header tolerance now ≡ ok verified
IsAuthentic-verified hmac secret body header tolerance now
      (authentic h raw is_h one whole fresh hit) =
    verify_webhook-parsed hmac secret body header tolerance now
      (ap parse_header is_h ∙ parse_header-read h raw _ one whole hit)
    ∙ rw (le→ltb_false _ _ fresh) (ap ok ((match_candidates-verified _ (candidates_of h)).1 hit))

-- Where Web Crypto is there, a delivery is accepted exactly when it is authentic: its header has one
-- timestamp and no more, a whole number, which lies in the window, the default one where none is
-- given; and one of the candidates of the header is equal to the HMAC of the timestamp and the body.
pub verify_webhook-IsAuthentic_iff :
    (hmac : Text → List ℕ → List ℕ) (secret : Text) (body : RawBody) (header : Option Text)
    (tolerance : Option ℕ) (now : ℕ)
    → (verify_webhook (some hmac) secret body header tolerance now ≡ ok verified)
      ↔ IsAuthentic hmac secret body header (or_else tolerance webhook_tolerance_seconds) now
verify_webhook-IsAuthentic_iff hmac secret body header tolerance now = (
  verified-IsAuthentic hmac secret body header tolerance now,
  IsAuthentic-verified hmac secret body header tolerance now,
)
