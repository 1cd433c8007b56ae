-- ===== src/Transform/Ladder/Snap.antt =====
-- Where `snapTransformSize` lands.
use kiln_cms.Prelude.{
  ℕ, ◌≤◌, ◌<◌, ◌≡◌, ◌≢◌, refl, none, some, List, [], ◌∷◌, ok, traverse, >>=-eq-ok, sort,
  sort-IsSorted, IsSorted, All, All-Has, All-of_sort, All-sort, Has, Has-sort, inl, inr,
  Option-cases, leb-false, All-mono, sort-ne_nil, ok-injective, subst, ◌∙◌, sym, Bool-cases, leb,
  arith,
}
use kiln_cms.Transform.{
  Num, whole, other, IsPositive, wholes, traverse-positive, IsPositive-of_traverse,
  positive_integer,
}
use kiln_cms.Transform.Ladder.{check_ladder, find_rung, last, snap, snap_transform_size}

lt_not_le : (a b : ℕ) → a < b → b ≤ a → ⊥
lt_not_le a b h k = omega arith

find_rung-least :
    (value : ℕ) (xs : List ℕ) {r : ℕ}
    → IsSorted xs
    → find_rung value xs ≡ some r
    → Has r xs × (value ≤ r) × All (λ s. value ≤ s → r ≤ s) xs
unfolding find_rung
find_rung-least value [] h e = cc
find_rung-least value (x ∷ xs) {r} (p, h) e = elim (Bool-cases (leb value x)) [
  | inl le ↦
      let q : x ≡ r = ground arith in
      (
        inl (sym q),
        ground arith,
        (
          λ _. ground arith,
          All-mono (λ s. x ≤ s) (λ s. value ≤ s → r ≤ s) (λ s k _. omega arith) xs p,
        ),
      )
  | inr gt ↦
      let above : x < value = leb-false value x gt in
      let (m, v, k) = find_rung-least value xs h (ground arith) in
      (inr m, v, (λ q. absurd (lt_not_le x value above q), k))
]

find_rung-none : (value : ℕ) (xs : List ℕ) → find_rung value xs ≡ none → All (λ s. s < value) xs
unfolding find_rung
find_rung-none value [] e = tt
find_rung-none value (x ∷ xs) e = ground (arith, find_rung-none value xs)

last-greatest :
    (x : ℕ) (xs : List ℕ)
    → IsSorted (x ∷ xs)
    → Has (last (x ∷ xs)) (x ∷ xs) × All (λ s. s ≤ last (x ∷ xs)) (x ∷ xs)
unfolding last
last-greatest x [] h = (inl refl, (omega arith, tt))
last-greatest x (y ∷ ys) ((p, ps), h) =
    let (m, k) = last-greatest y ys h in (inr m, (omega arith, k))

-- What a snapped size is, told of the ladder as it was given.
pub record IsSnap (value : ℕ) (sizes : List ℕ) (r : ℕ) : Type 0 where
  pub rung : Has r sizes
  pub least : All (λ s. value ≤ s → (value ≤ r) × (r ≤ s)) sizes
  pub top : All (λ s. s < value) sizes → All (λ s. s ≤ r) sizes

snap-IsSnap_sorted :
    (value x : ℕ) (xs : List ℕ) → IsSorted (x ∷ xs) → IsSnap value (x ∷ xs) (snap value (x ∷ xs))
unfolding snap
snap-IsSnap_sorted value x xs h = elim (Option-cases (find_rung value (x ∷ xs))) [
  | inl missed ↦ rw missed (
      let below = find_rung-none value (x ∷ xs) missed in
      let (m, k) = last-greatest x xs h in
      record {
        rung = m;
        least = All-mono (λ s. s < value) _ (λ s p q. absurd (omega arith)) (x ∷ xs) below;
        top = λ _. k;
      })
  | inr (r, found) ↦ rw found (
      let (m, v, k) = find_rung-least value (x ∷ xs) h found in
      record {
        rung = m;
        least = All-mono (λ s. value ≤ s → r ≤ s) _ (λ s p q. (v, p q)) (x ∷ xs) k;
        top = λ below. let lt = All-Has (λ s. s < value) r (x ∷ xs) below m in absurd (omega arith);
      })
]

snap-IsSnap :
    (value : ℕ) (ladder : List ℕ)
    → IsSorted ladder
    → ladder ≢ []
    → IsSnap value ladder (snap value ladder)
snap-IsSnap value [] h ne = absurd (ne refl)
snap-IsSnap value (x ∷ xs) h ne = snap-IsSnap_sorted value x xs h

IsSnap-of_sort : (value r : ℕ) (sizes : List ℕ) → IsSnap value (sort sizes) r → IsSnap value sizes r
IsSnap-of_sort value r sizes s = record {
  rung = Has-sort r sizes s.rung;
  least = All-of_sort _ sizes s.least;
  top = λ below. All-of_sort _ sizes (s.top (All-sort _ sizes below));
}

pub check_ladder-ok :
    (sizes : List Num) {ladder : List ℕ}
    → check_ladder sizes ≡ ok ladder
    → (ladder ≡ sort (wholes sizes)) × (wholes sizes ≢ [])
unfolding check_ladder
check_ladder-ok [] e = cc
check_ladder-ok (other ∷ ss) e = cc
check_ladder-ok (whole n ∷ ss) e =
    let (ns, read, e') = >>=-eq-ok (traverse (positive_integer "sizes[]") (whole n ∷ ss)) _ e in
    let (eq, _) = IsPositive-of_traverse "sizes[]" (whole n ∷ ss) read in (cc, λ q. cc)

-- A nonempty ladder of positive whole numbers is accepted, in any order. The size is snapped to a
-- rung: the least rung from it on, and the highest rung where it lies above all of them.
pub snap_transform_size-IsSnap :
    (value : ℕ) (sizes : List Num)
    → sizes ≢ []
    → All IsPositive sizes
    → (r : ℕ) × (snap_transform_size value sizes ≡ ok r) × IsSnap value (wholes sizes) r
unfolding snap_transform_size
snap_transform_size-IsSnap value [] ne h = absurd (ne refl)
snap_transform_size-IsSnap value (other ∷ ss) ne (p, h) = absurd p
snap_transform_size-IsSnap value (whole n ∷ ss) ne h = (
  snap value (sort (wholes (whole n ∷ ss))),
  rw (traverse-positive "sizes[]" (whole n ∷ ss) h) refl,
  IsSnap-of_sort value _ (n ∷ wholes ss) (
      snap-IsSnap value (sort (n ∷ wholes ss)) (sort-IsSorted (n ∷ wholes ss))
        (sort-ne_nil n (wholes ss))),
)

sort_ne : (xs : List ℕ) → xs ≢ [] → sort xs ≢ []
sort_ne [] h = absurd (h refl)
sort_ne (x ∷ xs) h = sort-ne_nil x xs

-- A size that was snapped without an error lies where it should.
pub snap_transform_size-ok :
    (value : ℕ) (sizes : List Num) {r : ℕ}
    → snap_transform_size value sizes ≡ ok r
    → IsSnap value (wholes sizes) r
unfolding snap_transform_size
snap_transform_size-ok value sizes {r} e =
    let (ladder, checked, e') = >>=-eq-ok (check_ladder sizes) _ e in
    let (same, ne) = check_ladder-ok sizes checked in
    IsSnap-of_sort value r (wholes sizes) (
      subst (λ l. IsSnap value l r) same
        (subst (λ s. IsSnap value ladder s) (ok-injective e')
          (snap-IsSnap value ladder (rw same (sort-IsSorted (wholes sizes)))
            (λ q. sort_ne (wholes sizes) ne (sym same ∙ q)))))
