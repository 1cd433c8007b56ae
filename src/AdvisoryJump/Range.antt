-- ===== src/AdvisoryJump/Range.antt =====
-- The range holds the needle, and nothing else.
use kiln_cms.Prelude.{
  none, ℕ, zero, suc, ◌+◌, ◌-◌, ◌≤◌, ◌≡◌, refl, sym, ap, ap₂, ◌∙◌, subst, false, Option, some, List,
  [], ◌∷◌, ◌++◌, length, length-append, take, drop, min, Text, starts, ltb, Bool-cases,
  Option-cases, or_else, inl, inr, arith,
}
use kiln_cms.AdvisoryJump.{
  Entry, entries_from, concat, index_of, last_before, Position, locate, text_range,
}
use kiln_cms.AdvisoryJump.Place.{starts-take, IsFirst, index_of-IsFirst, index_of-none}

-- The text before a position: that of the nodes before its node, and that before it in its node.
abbrev pub text_before : ℕ → ℕ → List Text → Text
text_before i offset [] = []
text_before zero offset (t ∷ ts) = take offset t
text_before (suc i) offset (t ∷ ts) = t ++ text_before i offset ts

take-within : (k : ℕ) (xs ys : Text) → k ≤ length xs → take k (xs ++ ys) ≡ take k xs
take-within zero xs ys h = refl
take-within (suc k) [] ys h = ground (arith, h)
take-within (suc k) (x ∷ xs) ys h = ap (λ l. x ∷ l) (take-within k xs ys (omega (arith, h)))

take-beyond :
    (k : ℕ) (xs ys : Text) → length xs ≤ k → take k (xs ++ ys) ≡ xs ++ take (k - length xs) ys
take-beyond k [] ys h = ap (λ j. take j ys) (omega arith)
take-beyond zero (x ∷ xs) ys h = ground (arith, h)
take-beyond (suc k) (x ∷ xs) ys h =
    ap (λ l. x ∷ l)
      (take-beyond k xs ys (omega (arith, h)) ∙ ap (λ j. xs ++ take j ys) (omega arith))

take-nil : (k : ℕ) → take {A = ℕ} k [] ≡ []
take-nil zero = refl
take-nil (suc k) = refl

take-sum : (m n : ℕ) (xs : Text) → take (m + n) xs ≡ take m xs ++ take n (drop m xs)
take-sum zero n xs = ap (λ j. take j xs) (omega arith)
take-sum (suc m) n [] = take-nil (suc m + n) ∙ sym (take-nil n)
take-sum (suc m) n (x ∷ xs) =
    let e : suc m + n ≡ suc (m + n) = omega arith in
    ap (λ j. take j (x ∷ xs)) e ∙ ap (λ l. x ∷ l) (take-sum m n xs)

text_before-here :
    (i k : ℕ) (t : Text) (ts : List Text) (rest : Text)
    → k ≤ length t
    → text_before (i - i) (min k (length t)) (t ∷ ts) ≡ take k (t ++ rest)
text_before-here i k t ts rest h =
    let first : i - i ≡ 0 = omega arith in
    let within : min k (length t) ≡ k = ground (arith, h) in
    ap (λ j. text_before j (min k (length t)) (t ∷ ts)) first
    ∙ (ap (λ j. take j t) within ∙ sym (take-within k t rest h))

text_before-next :
    (n i o k : ℕ) (t : Text) (ts : List Text)
    → i + 1 ≤ n
    → length t ≤ k
    → text_before (n - (i + 1)) o ts ≡ take (k - length t) (concat ts)
    → text_before (n - i) o (t ∷ ts) ≡ take k (t ++ concat ts)
text_before-next n i o k t ts le over same =
    let e : n - i ≡ suc (n - (i + 1)) = omega (arith, le) in
    ap (λ j. text_before j o (t ∷ ts)) e
    ∙ (ap (λ l. t ++ l) same ∙ sym (take-beyond k t (concat ts) over))

-- The loop of `locate`, from the node with number i on: the entry that it has, and those to come.
last_before-text :
    (offset i start : ℕ) (t : Text) (ts : List Text)
    → start ≤ offset
    → offset ≤ start + length (t ++ concat ts)
    → let h =
        last_before offset
          (record { node = i; start = start; text = t })
          (entries_from (i + 1) (start + length t) ts) in
      (i ≤ h.node)
      × (text_before (h.node - i) (min (offset - h.start) (length h.text)) (t ∷ ts)
          ≡ take (offset - start) (t ++ concat ts))
unfolding last_before entries_from
last_before-text offset i start t [] low high = (
  omega arith,
  text_before-here i (offset - start) t [] [] (ground (arith, high, length-append t [])),
)
last_before-text offset i start t (t' ∷ ts) low high =
    elim (Bool-cases (ltb offset (start + length t))) [
      | inl inside ↦ rw inside (
        omega arith,
        text_before-here i (offset - start) t (t' ∷ ts) (t' ++ concat ts) (ground (arith, inside)),
      )
      | inr later ↦
          let (le, same) =
            last_before-text offset (i + 1) (start + length t) t' ts (ground (arith, later))
              (ground (arith, high, length-append t (t' ++ concat ts))) in
          rw later (
            omega (arith, le),
            text_before-next _ i _ (offset - start) t (t' ∷ ts) le (ground (arith, later))
                (same ∙ ap (λ j. take j (t' ++ concat ts)) (omega arith)),
          )
    ]

-- The text before a position that `locate` answers with.
abbrev pub before : Position → List Text → Text
before p nodes = text_before p.hit.node p.offset nodes

last_before-first :
    (offset : ℕ) (e : Entry) (es : List Entry)
    → e.start ≤ offset
    → last_before offset e (e ∷ es) ≡ last_before offset e es
unfolding last_before
last_before-first offset e es h =
    let test : ltb offset e.start ≡ false = ground (arith, h) in rw test refl

abbrev position_of : ℕ → Entry → Position
position_of offset h = record { hit = h; offset = min (offset - h.start) (length h.text) }

locate-before :
    (t : Text) (ts : List Text) (offset : ℕ)
    → offset ≤ length (concat (t ∷ ts))
    → (p : Position) × (locate (entries_from 0 0 (t ∷ ts)) offset ≡ some p)
      × (before p (t ∷ ts) ≡ take offset (concat (t ∷ ts)))
unfolding locate entries_from
locate-before t ts offset h =
    let first : Entry = record { node = 0; start = 0; text = t } in
    let rest = entries_from (0 + 1) (0 + length t) ts in
    let found = last_before offset first rest in
    let (_, same) = last_before-text offset 0 0 t ts (omega arith) (omega (arith, h)) in
    let less : found.node ≡ found.node - 0 = omega arith in
    (
      position_of offset found,
      ap (λ e. some (position_of offset e)) (last_before-first offset first rest (omega arith)),
      ap (λ j. text_before j (min (offset - found.start) (length found.text)) (t ∷ ts)) less
          ∙ (same ∙ ap (λ j. take j (t ++ concat ts)) (omega arith)),
    )

length-take : (n : ℕ) (xs : Text) → n ≤ length xs → length (take n xs) ≡ n
length-take zero xs h = refl
length-take (suc n) [] h = ground (arith, h)
length-take (suc n) (x ∷ xs) h = ap suc (length-take n xs (omega (arith, h)))

text_range-at :
    (nodes : List Text) (needle : Text) (at : ℕ)
    → index_of needle (concat nodes) ≡ some at
    → text_range nodes needle
      ≡ some
          (locate (entries_from 0 0 nodes) at, locate (entries_from 0 0 nodes) (at + length needle))
unfolding text_range
text_range-at nodes needle at e = rw (e, text_range) refl

-- A range that is found for a needle with any character has both ends; the text up to its end is
-- the text up to its start followed by the needle; and that is the first place where the needle
-- stands in the text of the nodes.
pub text_range-spans :
    (nodes : List Text) (c : ℕ) (rest : Text) {r : Option Position × Option Position}
    → text_range nodes (c ∷ rest) ≡ some r
    → (f : Position) × (t : Position) × (r ≡ (some f, some t))
      × (before t nodes ≡ before f nodes ++ c ∷ rest)
      × IsFirst (c ∷ rest) (concat nodes) (length (before f nodes))
unfolding text_range index_of
text_range-spans [] c rest {r} e = ground (arith, e)
text_range-spans (node ∷ nodes) c rest {r} e =
    elim (Option-cases (index_of (c ∷ rest) (concat (node ∷ nodes)))) [
      | inl nowhere ↦ ground (arith, rw (nowhere, text_range) at e)
      | inr (at, found) ↦
          let needle = c ∷ rest in
          let text = concat (node ∷ nodes) in
          let first = index_of-IsFirst needle text at found in
          let (f, is_f, to_f) = locate-before node nodes at (omega (arith, first.fits)) in
          let (t, is_t, to_t) = locate-before node nodes (at + length needle) first.fits in
          let ends : (some f, some t) ≡ r =
            ap₂ (λ a b. (a, b)) (sym is_f) (sym is_t)
            ∙ ap (λ o. or_else o r) (sym (text_range-at (node ∷ nodes) needle at found) ∙ e) in
          (
            f,
            t,
            sym ends,
            to_t
                ∙ (take-sum at (length needle) text
                    ∙ ap₂ (λ a b. a ++ b) (sym to_f)
                        (starts-take needle (drop at text) first.here)),
            subst (IsFirst needle text)
                (sym (ap length to_f ∙ length-take at text (omega (arith, first.fits)))) first,
          )
    ]

-- Where no range is found, the needle stands nowhere in the text of the nodes, not even across
-- several of them.
text_range-none :
    (nodes : List Text) (needle : Text) (m : ℕ)
    → text_range nodes needle ≡ none
    → starts needle (drop m (concat nodes)) ≡ false
text_range-none nodes needle m e = elim (Option-cases (index_of needle (concat nodes))) [
  | inl nowhere ↦ index_of-none needle (concat nodes) m nowhere
  | inr (at, found) ↦ ground (arith, sym (text_range-at nodes needle at found) ∙ e)
]
