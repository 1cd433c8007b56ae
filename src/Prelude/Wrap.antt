-- ===== src/Prelude/Wrap.antt =====
-- Steps round a ring of options: `(i + 1) % n` and `(i - 1 + n) % n`.
use Prim.Native.Nat.{ℕ, ◌+◌, ◌-◌, ◌%◌, ◌<◌, ◌≤◌}
use mathlib.Core.Path.{◌≡◌, ◌∙◌, ap}
use mathlib.Core.Logic.{inl, inr}
use native.Mathlib.Omega.{arith}
use native.Mathlib.Nat.{mod-eq_of_lt, mod-eq-sub-mod}
use kiln_cms.Prelude.Tests.{◌==◌, ltb, ltb→lt, Bool-cases, if◌then◌else◌}

-- A number below twice `n`.
mod_below : (a n : ℕ) → a < n + n → a % n ≡ (if ltb a n then a else a - n)
mod_below a n h = elim (Bool-cases (ltb a n)) [
  | inl lt ↦ rw lt (mod-eq_of_lt (ltb→lt a n lt))
  | inr ge ↦ let le : n ≤ a = ground arith in rw ge (mod-eq-sub-mod le ∙ mod-eq_of_lt (omega arith))
]

suc_test :
    (i n : ℕ)
    → i < n
    → (if ltb (i + 1) n then i + 1 else i + 1 - n) ≡ (if i + 1 == n then 0 else i + 1)
suc_test i n h = elim (Bool-cases (ltb (i + 1) n)) [ inl lt ↦ ground arith | inr ge ↦ ground arith ]

pred_test :
    (i n : ℕ)
    → i < n
    → (if ltb (i + n - 1) n then i + n - 1 else i + n - 1 - n) ≡ (if i == 0 then n - 1 else i - 1)
pred_test i n h = elim (Bool-cases (i == 0)) [ inl first ↦ ground arith | inr later ↦ ground arith ]

pub suc_wraps : (i n : ℕ) → i < n → (i + 1) % n ≡ (if i + 1 == n then 0 else i + 1)
suc_wraps i n h = mod_below (i + 1) n (omega arith) ∙ suc_test i n h

pub suc_wraps_round : (i n : ℕ) → i < n → (i + 1 + n) % n ≡ (if i + 1 == n then 0 else i + 1)
suc_wraps_round i n h =
    mod-eq-sub-mod (omega arith) ∙ (ap (λ a. a % n) (omega arith) ∙ suc_wraps i n h)

pub pred_wraps : (i n : ℕ) → i < n → (i + n - 1) % n ≡ (if i == 0 then n - 1 else i - 1)
pred_wraps i n h = mod_below (i + n - 1) n (omega arith) ∙ pred_test i n h
