-- ===== src/AdvisoryJump/Place.antt =====
-- Where a needle stands in a text.
use kiln_cms.Prelude.{
  none, ℕ, zero, suc, ◌+◌, ◌≤◌, ◌<◌, ◌≡◌, refl, ap, ap₂, ◌∙◌, subst, true, false, some, [], ◌∷◌,
  length, take, drop, Text, starts, Bool-cases, Option-cases, inl, inr, arith,
}
use kiln_cms.AdvisoryJump.{index_of}

pub starts-take : (p s : Text) → starts p s ≡ true → take (length p) s ≡ p
starts-take [] s h = refl
starts-take (c ∷ p) [] h = ground (arith, h)
starts-take (c ∷ p) (d ∷ s) h =
    ap₂ (λ x l. x ∷ l) (ground (arith, h)) (starts-take p s (ground (arith, h)))

starts-length : (p s : Text) → starts p s ≡ true → length p ≤ length s
starts-length [] s h = omega arith
starts-length (c ∷ p) [] h = ground (arith, h)
starts-length (c ∷ p) (d ∷ s) h = omega (arith, starts-length p s (ground (arith, h)))

-- The needle stands at that index, and at none before it.
pub record IsFirst (needle s : Text) (at : ℕ) : Type 0 where
  pub fits : at + length needle ≤ length s
  pub here : starts needle (drop at s) ≡ true
  pub none_before : (m : ℕ) → m < at → starts needle (drop m s) ≡ false

next-none :
    (needle : Text) (c : ℕ) (s : Text) (n : ℕ)
    → starts needle (c ∷ s) ≡ false
    → ((m : ℕ) → m < n → starts needle (drop m s) ≡ false)
    → (m : ℕ) → m < suc n
    → starts needle (drop m (c ∷ s)) ≡ false
next-none needle c s n other h zero lt = other
next-none needle c s n other h (suc m) lt = h m (omega (arith, lt))

pub index_of-IsFirst :
    (needle s : Text) (at : ℕ) → index_of needle s ≡ some at → IsFirst needle s at
unfolding index_of
index_of-IsFirst needle [] at e = elim (Bool-cases (starts needle [])) [
  | inl it ↦
      let zero_at : 0 ≡ at = ground (arith, rw it at e) in
      subst (IsFirst needle []) zero_at (record {
        fits = ground (arith, starts-length needle [] it);
        here = it;
        none_before = λ m h. ground (arith, h);
      })
  | inr other ↦ ground (arith, rw other at e)
]
index_of-IsFirst needle (c ∷ s) at e = elim (Bool-cases (starts needle (c ∷ s))) [
  | inl it ↦
      let zero_at : 0 ≡ at = ground (arith, rw it at e) in
      subst (IsFirst needle (c ∷ s)) zero_at (record {
        fits = ground (arith, starts-length needle (c ∷ s) it);
        here = it;
        none_before = λ m h. ground (arith, h);
      })
  | inr other ↦ elim (Option-cases (index_of needle s)) [
    | inl nowhere ↦ ground (arith, rw (other, nowhere) at e)
    | inr (n, found) ↦
        let next : suc n ≡ at = ground (arith, rw (other, found) at e) in
        let h = index_of-IsFirst needle s n found in
        subst (IsFirst needle (c ∷ s)) next (record {
          fits = omega (arith, h.fits);
          here = h.here;
          none_before = next-none needle c s n other h.none_before;
        })
  ]
]

drop-nil : (m : ℕ) → drop {A = ℕ} m [] ≡ []
drop-nil zero = refl
drop-nil (suc m) = refl

drop-cases :
    (needle : Text) (c : ℕ) (s : Text) (m : ℕ)
    → starts needle (c ∷ s) ≡ false
    → ((k : ℕ) → starts needle (drop k s) ≡ false)
    → starts needle (drop m (c ∷ s)) ≡ false
drop-cases needle c s zero other h = other
drop-cases needle c s (suc m) other h = h m

pub index_of-none :
    (needle s : Text) (m : ℕ) → index_of needle s ≡ none → starts needle (drop m s) ≡ false
unfolding index_of
index_of-none needle [] m e = elim (Bool-cases (starts needle [])) [
  | inl it ↦ ground (arith, rw it at e)
  | inr other ↦ ap (starts needle) (drop-nil m) ∙ other
]
index_of-none needle (c ∷ s) m e = elim (Bool-cases (starts needle (c ∷ s))) [
  | inl it ↦ ground (arith, rw it at e)
  | inr other ↦ elim (Option-cases (index_of needle s)) [
    | inl nowhere ↦ drop-cases needle c s m other (λ k. index_of-none needle s k nowhere)
    | inr (n, found) ↦ ground (arith, rw (other, found) at e)
  ]
]
