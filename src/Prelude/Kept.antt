-- ===== src/Prelude/Kept.antt =====
-- Predicates on what `keep` keeps.
use mathlib.Core.Path.{◌≡◌}
use mathlib.Core.Logic.{inl, inr}
use mathlib.Core.Bool.{Bool, true, false}
use mathlib.Core.List.{List, [], ◌∷◌}
use kiln_cms.Prelude.Tests.{Bool-cases}
use kiln_cms.Prelude.Lists.{keep}
use kiln_cms.Prelude.Every.{All}

apart : (b : Bool) → b ≡ true → b ≡ false → ⊥
apart b e f = cc

module _ {ℓ κ} {A : Type ℓ} (P : A → Type κ) (p : A → Bool) where
  pub All-keep : (xs : List A) → All P xs → All P (keep p xs)
  All-keep [] h = tt
  All-keep (x ∷ xs) (q, h) = elim (Bool-cases (p x)) [
    | inl kept ↦ rw (kept, All) (q, All-keep xs h)
    | inr out ↦ rw out (All-keep xs h)
  ]

  pub All-of_keep : (xs : List A) → All P (keep p xs) → All (λ x. p x ≡ true → P x) xs
  All-of_keep [] h = tt
  All-of_keep (x ∷ xs) h = elim (Bool-cases (p x)) [
    | inl kept ↦
        let h' : P x × All P (keep p xs) = rw kept at h in ((λ _. h'.0), All-of_keep xs h'.1)
    | inr out ↦ ((λ e. absurd (apart (p x) e out)), All-of_keep xs (rw out at h))
  ]

module _ {ℓ} {A : Type ℓ} (p : A → Bool) where
  pub All-keep_test : (xs : List A) → All (λ y. p y ≡ true) (keep p xs)
  All-keep_test [] = tt
  All-keep_test (x ∷ xs) = elim (Bool-cases (p x)) [
    | inl kept ↦ rw kept (kept, All-keep_test xs)
    | inr out ↦ rw out (All-keep_test xs)
  ]
