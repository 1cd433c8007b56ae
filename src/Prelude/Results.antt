-- ===== src/Prelude/Results.antt =====
-- Code that throws: a value, or the error thrown. A do block is a sequence of statements.
use mathlib.Core.Path.{◌≡◌, refl}
use mathlib.Core.Bool.{Bool, true, false}
use mathlib.Core.List.{List, [], ◌∷◌}

pub data Result {ℓ κ} (E : Type ℓ) (A : Type κ) : Type (ℓ ⊔ κ) where
  err : E → Result E A
  ok : A → Result E A

module _ {ℓ} {E : Type ℓ} where
  -- `if (!test) throw x`
  abbrev pub ensure : Bool → E → Result E (Unit {0})
  ensure test x = elim test [ false ↦ err x | true ↦ ok tt ]

  infixl 5 ◌>>=◌ ◌>>◌
  abbrev pub ◌>>=◌ {κ μ} : {A : Type κ} {B : Type μ} → Result E A → (A → Result E B) → Result E B
  err x >>= next = err x
  ok a >>= next = next a

  abbrev pub ◌>>◌ {κ μ} : {A : Type κ} {B : Type μ} → Result E A → Result E B → Result E B
  err x >> next = err x
  ok _ >> next = next

  pub ok-injective {κ} : {A : Type κ} {a b : A} → ◌≡◌ {A = Result E A} (ok a) (ok b) → a ≡ b
  ok-injective e = cc

  -- A check that did not throw has passed.
  pub ensure-eq-ok {κ} :
      {A : Type κ} (test : Bool) (x : E) {k : Result E A} {a : A}
      → (ensure test x >> k) ≡ ok a
      → (test ≡ true) × (k ≡ ok a)
  ensure-eq-ok true x h = (refl, h)
  ensure-eq-ok false x h = cc

  -- `list.map(f)` where `f` may throw: the first error ends it.
  abbrev pub traverse {κ μ} :
      {A : Type κ} {B : Type μ} → (A → Result E B) → List A → Result E (List B)
  traverse f [] = ok []
  traverse f (x ∷ xs) = do y ← f x; ys ← traverse f xs; ok (y ∷ ys)

  -- A statement sequence that ended well has done each of its statements.
  pub >>=-eq-ok {κ μ} :
      {A : Type κ} {B : Type μ} (first : Result E A) (next : A → Result E B) {b : B}
      → (first >>= next) ≡ ok b
      → (a : A) × (first ≡ ok a) × (next a ≡ ok b)
  >>=-eq-ok (err x) next done = cc
  >>=-eq-ok (ok a) next done = (a, refl, done)
