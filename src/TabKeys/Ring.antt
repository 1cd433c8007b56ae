-- ===== src/TabKeys/Ring.antt =====
-- The tabs as a ring.
use kiln_cms.Prelude.{
  ℕ, suc, ◌+◌, ◌-◌, ◌%◌, ◌==◌, ◌<◌, ◌≤◌, ◌≡◌, ◌⊎◌, inl, inr, refl, false, ◌||◌, Option, none, some,
  suc_wraps, pred_wraps, Bool-cases, arith,
}
use kiln_cms.TabKeys.{
  Modifiers, TabKey, next_tab, on_keydown, arrow_right, arrow_left, home, end_key, other_key,
}

-- No modifier is held.
abbrev pub IsBare : Modifiers → Type 0
IsBare m = (m.alt ≡ false) × (m.ctrl ≡ false) × (m.meta ≡ false) × (m.shift ≡ false)

-- Of n tabs, j is the one after i, the first being the one after the last.
abbrev pub Follows : ℕ → ℕ → ℕ → Type 0
Follows n i j = ((j ≡ suc i) × (j < n)) ⊎ ((suc i ≡ n) × (j ≡ 0))

-- Where a key takes the focus from tab i.
abbrev pub Moves : ℕ → ℕ → TabKey → Option ℕ → Type 0
Moves n i arrow_right o = (j : ℕ) × (o ≡ some j) × Follows n i j
Moves n i arrow_left o = (j : ℕ) × (o ≡ some j) × Follows n j i
Moves n i home o = (j : ℕ) × (o ≡ some j) × (j < n) × ((k : ℕ) → k < n → j ≤ k)
Moves n i end_key o = (j : ℕ) × (o ≡ some j) × (j < n) × ((k : ℕ) → k < n → k ≤ j)
Moves n i other_key o = o ≡ none

next_tab-Moves : (n i : ℕ) (key : TabKey) → i < n → Moves n i key (next_tab n i key)
unfolding next_tab
next_tab-Moves n i arrow_right h = elim (Bool-cases (i + 1 == n)) [
  | inl last ↦
      ((i + 1) % n, refl, inr (ground (arith, last), ground (arith, suc_wraps i n h, last)))
  | inr inner ↦ (
    (i + 1) % n,
    refl,
    inl (ground (arith, suc_wraps i n h, inner), ground (arith, suc_wraps i n h, inner)),
  )
]
next_tab-Moves n i arrow_left h = elim (Bool-cases (i == 0)) [
  | inl first ↦
      ((i + n - 1) % n, refl, inr (ground (arith, pred_wraps i n h, first), ground (arith, first)))
  | inr inner ↦ ((i + n - 1) % n, refl, inl (ground (arith, pred_wraps i n h, inner), h))
]
next_tab-Moves n i home h = (0, refl, omega arith, λ k le. omega arith)
next_tab-Moves n i end_key h = (n - 1, refl, omega arith, λ k le. omega arith)
next_tab-Moves n i other_key h = refl

-- With the focus on one of n tabs and no modifier held, Right moves to the tab that follows it, the
-- first following the last, Left to the tab that it follows, Home to the least, End to the greatest,
-- and any other key is let through. With any modifier held every key is.
pub on_keydown-Moves :
    (m : Modifiers) (n i : ℕ) (key : TabKey)
    → i < n
    → (IsBare m × Moves n i key (on_keydown m n (some i) key))
      ⊎ ((¬ IsBare m) × (on_keydown m n (some i) key ≡ none))
unfolding on_keydown
on_keydown-Moves m n i key h = elim (Bool-cases (m.alt || m.ctrl || m.meta || m.shift)) [
  | inl held ↦ rw held (inr ((λ b. ground (arith, held, b)), refl))
  | inr bare ↦ rw bare (inl (ground (arith, bare), next_tab-Moves n i key h))
]
