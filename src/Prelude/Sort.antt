-- ===== src/Prelude/Sort.antt =====
-- Numbers in ascending order (`array.sort((a, b) => a - b)`), and membership.
use Prim.Native.Nat.{ℕ, ◌≤◌}
use mathlib.Core.Path.{◌≡◌, refl}
use mathlib.Core.Logic.{◌⊎◌, ◌≢◌, inl, inr}
use mathlib.Core.List.{List, [], ◌∷◌}
use native.Mathlib.Omega.{arith}
use kiln_cms.Prelude.Tests.{leb, if◌then◌else◌, Bool-cases}
use kiln_cms.Prelude.Every.{All, IsSorted}

unfoldable pub insert : ℕ → List ℕ → List ℕ
insert x [] = x ∷ []
insert x (y ∷ ys) = if leb x y then x ∷ y ∷ ys else y ∷ insert x ys

unfoldable pub sort : List ℕ → List ℕ
unfolding insert
sort [] = []
sort (x ∷ xs) = insert x (sort xs)

abbrev pub Has : ℕ → List ℕ → Type 0
Has x [] = ⊥
Has x (y ∷ ys) = (x ≡ y) ⊎ Has x ys

module _ {κ} (P : ℕ → Type κ) where
  pub All-insert : (x : ℕ) (xs : List ℕ) → P x → All P xs → All P (insert x xs)
  unfolding insert
  All-insert x [] p h = (p, tt)
  All-insert x (y ∷ ys) p (q, h) = elim (Bool-cases (leb x y)) [
    | inl le ↦ rw le (p, (q, h))
    | inr gt ↦ rw gt (q, All-insert x ys p h)
  ]

  All-of_insert : (x : ℕ) (xs : List ℕ) → All P (insert x xs) → P x × All P xs
  unfolding insert
  All-of_insert x [] h = h
  All-of_insert x (y ∷ ys) h = elim (Bool-cases (leb x y)) [
    | inl le ↦ rw le at h
    | inr gt ↦
        let h' : P y × All P (insert x ys) = rw gt at h in
        let (p, r) = All-of_insert x ys h'.1 in (p, (h'.0, r))
  ]

  pub All-sort : (xs : List ℕ) → All P xs → All P (sort xs)
  unfolding sort
  All-sort [] h = tt
  All-sort (x ∷ xs) (p, h) = All-insert x (sort xs) p (All-sort xs h)

  pub All-of_sort : (xs : List ℕ) → All P (sort xs) → All P xs
  unfolding sort
  All-of_sort [] h = tt
  All-of_sort (x ∷ xs) h = let (p, r) = All-of_insert x (sort xs) h in (p, All-of_sort xs r)

-- What holds of every element holds of each.
pub All-Has {κ} : (P : ℕ → Type κ) (x : ℕ) (xs : List ℕ) → All P xs → Has x xs → P x
All-Has P x [] h m = absurd m
All-Has P x (y ∷ ys) (p, h) (inl e) = rw e p
All-Has P x (y ∷ ys) (p, h) (inr m) = All-Has P x ys h m

pub All-of_Has {κ} : {P : ℕ → Type κ} (xs : List ℕ) → ((x : ℕ) → Has x xs → P x) → All P xs
All-of_Has [] h = tt
All-of_Has (x ∷ xs) h = (h x (inl refl), All-of_Has xs (λ y m. h y (inr m)))

pub Has-sort : (x : ℕ) (xs : List ℕ) → Has x (sort xs) → Has x xs
Has-sort x xs m =
    All-Has (λ y. Has y xs) x (sort xs) (All-sort (λ y. Has y xs) xs (All-of_Has xs (λ y h. h))) m

pub Has-of_sort : (x : ℕ) (xs : List ℕ) → Has x xs → Has x (sort xs)
Has-of_sort x xs m =
    All-Has (λ y. Has y (sort xs)) x xs
      (All-of_sort (λ y. Has y (sort xs)) xs (All-of_Has (sort xs) (λ y h. h))) m

All-le_mono : (x y : ℕ) (xs : List ℕ) → x ≤ y → All (λ z. y ≤ z) xs → All (λ z. x ≤ z) xs
All-le_mono x y [] h k = tt
All-le_mono x y (z ∷ zs) h (p, k) = (omega arith, All-le_mono x y zs h k)

insert-IsSorted : (x : ℕ) (xs : List ℕ) → IsSorted xs → IsSorted (insert x xs)
unfolding insert
insert-IsSorted x [] h = (tt, tt)
insert-IsSorted x (y ∷ ys) (p, h) = elim (Bool-cases (leb x y)) [
  | inl le ↦ rw le (let le' : x ≤ y = ground arith in ((le', All-le_mono x y ys le' p), (p, h)))
  | inr gt ↦
      rw gt (
        let ge : y ≤ x = ground arith in
        (All-insert (λ z. y ≤ z) x ys ge p, insert-IsSorted x ys h))
]

pub sort-IsSorted : (xs : List ℕ) → IsSorted (sort xs)
unfolding sort
sort-IsSorted [] = tt
sort-IsSorted (x ∷ xs) = insert-IsSorted x (sort xs) (sort-IsSorted xs)

insert-ne_nil : (x : ℕ) (xs : List ℕ) → insert x xs ≢ []
unfolding insert
insert-ne_nil x [] e = cc
insert-ne_nil x (y ∷ ys) e = ground arith

pub sort-ne_nil : (x : ℕ) (xs : List ℕ) → sort (x ∷ xs) ≢ []
unfolding sort
sort-ne_nil x xs = insert-ne_nil x (sort xs)
