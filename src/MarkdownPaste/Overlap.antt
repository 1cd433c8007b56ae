-- ===== src/MarkdownPaste/Overlap.antt =====
-- Where two documents differ, when the ends that are found overlap the start.
use kiln_cms.Prelude.{
  ℕ, zero, suc, ◌+◌, ◌-◌, ◌≤◌, ◌≡◌, refl, sym, ap, subst, ◌∙◌, List, [], ◌∷◌, ◌++◌, take, drop,
  length, Bool-cases, inl, inr, ltb, take-append-drop, arith,
}
use kiln_cms.MarkdownPaste.{no_overlap}

module _ {ℓ} {A : Type ℓ} where
  length-drop : (n : ℕ) (xs : List A) → n ≤ length xs → n + length (drop n xs) ≡ length xs
  length-drop zero xs h = omega arith
  length-drop (suc n) [] h = omega (arith, h)
  length-drop (suc n) (x ∷ xs) h = omega (arith, length-drop n xs (omega (arith, h)))

  drop-nil : (n : ℕ) → drop {A = A} n [] ≡ []
  drop-nil zero = refl
  drop-nil (suc n) = refl

  drop-drop : (k n : ℕ) (xs : List A) → drop (n + k) xs ≡ drop k (drop n xs)
  drop-drop k zero xs = ap (λ j. drop j xs) (omega arith)
  drop-drop k (suc n) [] = drop-nil (suc n + k) ∙ sym (drop-nil k)
  drop-drop k (suc n) (x ∷ xs) =
      let e : suc n + k ≡ suc (n + k) = omega arith in
      ap (λ j. drop j (x ∷ xs)) e ∙ drop-drop k n xs

  pub take-split :
      (m n : ℕ) (xs : List A) → m ≤ n → take m xs ++ (drop m (take n xs) ++ drop n xs) ≡ xs
  take-split zero n xs h = take-append-drop n xs
  take-split (suc m) zero xs h = ground (arith, h)
  take-split (suc m) (suc n) [] h = refl
  take-split (suc m) (suc n) (x ∷ xs) h = ap (λ l. x ∷ l) (take-split m n xs (omega (arith, h)))

  -- Ends from which on two lists agree.
  pub record AreEnds (a b : List A) (m n : ℕ) : Type ℓ where
    pub in_first : m ≤ length a
    pub in_second : n ≤ length b
    pub agree : drop m a ≡ drop n b

  later-AreEnds :
      (a b : List A) (m n k : ℕ) → AreEnds a b m n → m + k ≤ length a → AreEnds a b (m + k) (n + k)
  later-AreEnds a b m n k h le = record {
    in_first = le;
    in_second =
        omega
          (arith, length-drop m a h.in_first, length-drop n b h.in_second, ap length h.agree, le);
    agree = drop-drop k m a ∙ (ap (drop k) h.agree ∙ sym (drop-drop k n b));
  }

  in_first-of : (a b : List A) (m n k : ℕ) → AreEnds a b m n → n + k ≤ length b → m + k ≤ length a
  in_first-of a b m n k h le =
      omega (arith, length-drop m a h.in_first, length-drop n b h.in_second, ap length h.agree, le)

  pub no_overlap-AreEnds :
      (a b : List A) (start m n : ℕ)
      → start ≤ length a
      → start ≤ length b
      → AreEnds a b m n
      → let (p, q) = no_overlap start (m, n) in AreEnds a b p q × (start ≤ p) × (start ≤ q)
  unfolding no_overlap
  no_overlap-AreEnds a b start m n la lb h = elim (Bool-cases (ltb m start)) [
    | inl low ↦
        let ends : AreEnds a b (m + (start - m)) (n + (start - m)) =
          later-AreEnds a b m n (start - m) h (ground (arith, low, la)) in
        let at : m + (start - m) ≡ start = ground (arith, low) in
        elim (Bool-cases (ltb (n + (start - m)) start)) [
          | inl short ↦
              let more = start - (n + (start - m)) in
              let fits : n + (start - m) + more ≤ length b = ground (arith, short, lb) in
              let ends' : AreEnds a b (m + (start - m) + more) (n + (start - m) + more) =
                later-AreEnds a b (m + (start - m)) (n + (start - m)) more ends
                  (in_first-of a b (m + (start - m)) (n + (start - m)) more ends fits) in
              let at' : n + (start - m) + more ≡ start = ground (arith, short) in
              rw (low, no_overlap, short)
                (
                  subst (λ k. AreEnds a b (k + more) start) at
                      (subst (λ k. AreEnds a b (m + (start - m) + more) k) at' ends'),
                  omega arith,
                  omega arith,
                )
          | inr far ↦
              rw (low, no_overlap, far)
                (
                  subst (λ k. AreEnds a b k (n + (start - m))) at ends,
                  omega arith,
                  ground (arith, far),
                )
        ]
    | inr high ↦ elim (Bool-cases (ltb n start)) [
      | inl short ↦
          let ends : AreEnds a b (m + (start - n)) (n + (start - n)) =
            later-AreEnds a b m n (start - n) h
              (in_first-of a b m n (start - n) h (ground (arith, short, lb))) in
          let at : n + (start - n) ≡ start = ground (arith, short) in
          rw (high, no_overlap, short)
            (
              subst (λ k. AreEnds a b (m + (start - n)) k) at ends,
              ground (arith, high),
              omega arith,
            )
      | inr far ↦ rw (high, no_overlap, far) (h, ground (arith, high), ground (arith, far))
    ]
  ]
