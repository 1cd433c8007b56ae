-- ===== src/Transform/Srcset/Unique.antt =====
-- Removing repeated widths and sorting the rest.
use kiln_cms.Prelude.{
  ℕ, ◌<◌, ◌≡◌, ◌≢◌, inl, inr, sym, subst, Bool, true, not, List, [], ◌∷◌, keep, All, All-mono,
  All-keep, All-keep_test, All-Has, All-insert, All-sort, All-of_Has, Has, Has-sort, IsIncreasing,
  insert, sort, Bool-cases, leb, ◌==◌, ==_iff, arith,
}
use kiln_cms.Transform.Srcset.{unique}

abbrev pub Distinct : List ℕ → Type 0
Distinct [] = Unit
Distinct (x ∷ xs) = All (λ y. y ≢ x) xs × Distinct xs

keep-Distinct : (p : ℕ → Bool) (xs : List ℕ) → Distinct xs → Distinct (keep p xs)
keep-Distinct p [] h = tt
keep-Distinct p (x ∷ xs) (q, h) = elim (Bool-cases (p x)) [
  | inl in_ ↦ rw in_ (All-keep (λ y. y ≢ x) p xs q, keep-Distinct p xs h)
  | inr out ↦ rw out (keep-Distinct p xs h)
]

pub unique-Distinct : (xs : List ℕ) → Distinct (unique xs)
unfolding unique
unique-Distinct [] = tt
unique-Distinct (x ∷ xs) = (
  All-mono (λ y. not (y == x) ≡ true) (λ y. y ≢ x) (λ y e. ground arith) _
      (All-keep_test (λ y. not (y == x)) (unique xs)),
  keep-Distinct (λ y. not (y == x)) (unique xs) (unique-Distinct xs),
)

insert-IsIncreasing :
    (x : ℕ) (xs : List ℕ) → All (λ y. y ≢ x) xs → IsIncreasing xs → IsIncreasing (insert x xs)
unfolding insert
insert-IsIncreasing x [] h k = (tt, tt)
insert-IsIncreasing x (y ∷ ys) (p, h) (q, k) = elim (Bool-cases (leb x y)) [
  | inl le ↦
      let lt : x < y = ground arith in
      rw le ((lt, All-mono (λ z. y < z) (λ z. x < z) (λ z r. omega arith) ys q), (q, k))
  | inr gt ↦
      let above : y < x = ground arith in
      rw gt (All-insert (λ z. y < z) x ys above q, insert-IsIncreasing x ys h k)
]

pub sort-IsIncreasing : (xs : List ℕ) → Distinct xs → IsIncreasing (sort xs)
unfolding sort
sort-IsIncreasing [] h = tt
sort-IsIncreasing (x ∷ xs) (p, h) =
    insert-IsIncreasing x (sort xs) (All-sort (λ y. y ≢ x) xs p) (sort-IsIncreasing xs h)

All-unique : (P : ℕ → Type 0) (xs : List ℕ) → All P xs → All P (unique xs)
unfolding unique
All-unique P [] h = tt
All-unique P (x ∷ xs) (p, h) = (p, All-keep P (λ y. not (y == x)) (unique xs) (All-unique P xs h))

All-of_distinct_keep :
    (P : ℕ → Type 0) (x : ℕ) (xs : List ℕ) → P x → All P (keep (λ y. not (y == x)) xs) → All P xs
All-of_distinct_keep P x [] p h = tt
All-of_distinct_keep P x (y ∷ ys) p h = elim (Bool-cases (y == x)) [
  | inl same ↦ (subst P (sym ((==_iff y x).0 same)) p, All-of_distinct_keep P x ys p (rw same at h))
  | inr differ ↦
      let h' : P y × All P (keep (λ z. not (z == x)) ys) = rw differ at h in
      (h'.0, All-of_distinct_keep P x ys p h'.1)
]

pub All-of_unique : (P : ℕ → Type 0) (xs : List ℕ) → All P (unique xs) → All P xs
unfolding unique
All-of_unique P [] h = tt
All-of_unique P (x ∷ xs) (p, h) = (p, All-of_unique P xs (All-of_distinct_keep P x (unique xs) p h))

pub Has-asked : (x : ℕ) (xs : List ℕ) → Has x (sort (unique xs)) → Has x xs
Has-asked x xs m =
    All-Has (λ y. Has y xs) x (unique xs) (All-unique (λ y. Has y xs) xs (All-of_Has xs (λ y h. h)))
      (Has-sort x (unique xs) m)
