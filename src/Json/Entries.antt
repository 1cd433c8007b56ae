-- ===== src/Json/Entries.antt =====
-- Objects as lists of entries.
use kiln_cms.Prelude.{
  ◌≡◌, refl, sym, ◌∙◌, true, false, some, List, [], ◌∷◌, Text, text_eq, text_eq_iff, if◌then◌else◌,
  Bool-cases, inl, inr, arith,
}
use kiln_cms.Json.{lookup, assign}

-- A name that differs from one of two equal names differs from the other.
text_eq-other :
    (l k name : Text) → text_eq l k ≡ false → text_eq l name ≡ true → text_eq k name ≡ false
text_eq-other l k name differ same = elim (Bool-cases (text_eq k name)) [
  | inr other ↦ other
  | inl both ↦ absurd (
      ground (
        arith,
        sym differ
            ∙ (text_eq_iff l k).1 ((text_eq_iff l name).0 same ∙ sym ((text_eq_iff k name).0 both)),
      ))
]

-- What is assigned is found under its name, and nothing else changes.
pub lookup-assign {ℓ} :
    {A : Type ℓ} (name k : Text) (a : A) (es : List (Text × A))
    → lookup name (assign k a es) ≡ (if text_eq k name then some a else lookup name es)
lookup-assign name k a [] = refl
lookup-assign name k a ((l, b) ∷ es) = elim (Bool-cases (text_eq l k)) [
  | inl same ↦
      rw (same, (text_eq_iff l k).0 same)
        (elim (Bool-cases (text_eq k name)) [ inl hit ↦ rw hit refl | inr miss ↦ rw miss refl ])
  | inr differ ↦ elim (Bool-cases (text_eq l name)) [
    | inl hit ↦ rw (differ, hit, text_eq-other l k name differ hit) refl
    | inr miss ↦ rw (differ, miss, lookup-assign name k a es) refl
  ]
]
