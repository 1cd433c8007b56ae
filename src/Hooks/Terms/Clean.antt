-- ===== src/Hooks/Terms/Clean.antt =====
-- The items that the box adds.
use kiln_cms.Prelude.{
  ℕ, ◌≡◌, ◌≢◌, Bool, true, false, ◌&&◌, List, [], ◌∷◌, map, keep, Text, Without, cons_head,
  split_on, trim, trim_start, trim_end, is_empty, is_space, All, Bool-cases, inl, inr, arith,
  if-either, ◌==◌,
}
use kiln_cms.LinkPrompt.Href.{trim_idem}
use kiln_cms.Hooks.Terms.{
  newline, without_returns, commas_to_newlines, split_terms, is_full, terms_of,
}

cons_head-Without :
    (c x : ℕ) (ws : List Text) → x ≢ c → All (Without c) ws → All (Without c) (cons_head x ws)
cons_head-Without c x [] p h = ((p, tt), tt)
cons_head-Without c x (w ∷ ws) p (q, h) = ((p, q), h)

-- What a text is split into has no separator.
split_on-All_Without : (c : ℕ) (s : Text) → All (Without c) (split_on c s)
unfolding split_on
split_on-All_Without c [] = (tt, tt)
split_on-All_Without c (x ∷ s) = elim (Bool-cases (x == c)) [
  | inl same ↦ rw same (tt, split_on-All_Without c s)
  | inr differ ↦ rw differ (
      cons_head-Without c x (split_on c s) (λ e. ground (arith, e, differ))
        (split_on-All_Without c s))
]

-- What holds of each character holds of those of the parts, and of those that are left by `trim`.
module _ (P : ℕ → Type 0) where
  cons_head-All : (x : ℕ) (ws : List Text) → P x → All (All P) ws → All (All P) (cons_head x ws)
  cons_head-All x [] p h = ((p, tt), tt)
  cons_head-All x (w ∷ ws) p (q, h) = ((p, q), h)

  split_on-All : (c : ℕ) (s : Text) → All P s → All (All P) (split_on c s)
  unfolding split_on
  split_on-All c [] h = (tt, tt)
  split_on-All c (x ∷ s) (p, h) =
      if-either (All (All P)) (x == c) _ _ (tt, split_on-All c s h)
        (cons_head-All x (split_on c s) p (split_on-All c s h))

  trim_start-All : (s : Text) → All P s → All P (trim_start s)
  unfolding trim_start
  trim_start-All [] h = tt
  trim_start-All (c ∷ s) (p, h) = if-either (All P) (is_space c) _ _ (trim_start-All s h) (p, h)

  trim_end-All : (s : Text) → All P s → All P (trim_end s)
  unfolding trim_end
  trim_end-All [] h = tt
  trim_end-All (c ∷ s) (p, h) =
      if-either (All P) (is_empty (trim_end s) && is_space c) _ _ tt (p, trim_end-All s h)

  trim-All : (s : Text) → All P s → All P (trim s)
  trim-All s h = trim_start-All (trim_end s) (trim_end-All s h)

  trims-All : (ws : List Text) → All (All P) ws → All (All P) (map (λ w. trim w) ws)
  trims-All [] h = tt
  trims-All (w ∷ ws) (p, h) = (trim-All w p, trims-All ws h)

keep-All {ℓ κ} :
    {A : Type ℓ} (P : A → Type κ) (p : A → Bool) (xs : List A) → All P xs → All P (keep p xs)
keep-All P p [] h = tt
keep-All P p (x ∷ xs) (q, h) =
    if-either (All P) (p x) _ _ (q, keep-All P p xs h) (keep-All P p xs h)

keep-passes {ℓ} : {A : Type ℓ} (p : A → Bool) (xs : List A) → All (λ x. p x ≡ true) (keep p xs)
keep-passes p [] = tt
keep-passes p (x ∷ xs) = elim (Bool-cases (p x)) [
  | inl yes_ ↦ rw yes_ (yes_, keep-passes p xs)
  | inr no_ ↦ rw no_ (keep-passes p xs)
]

trims-trimmed : (ws : List Text) → All (λ w. trim w ≡ w) (map (λ w. trim w) ws)
trims-trimmed [] = tt
trims-trimmed (w ∷ ws) = (trim_idem w, trims-trimmed ws)

split_terms-no_newline :
    (lines : Bool) (text : Text) → All (Without newline) (split_terms lines text)
unfolding split_terms
split_terms-no_newline true text = split_on-All_Without newline (without_returns text)
split_terms-no_newline false text = split_on-All_Without newline (commas_to_newlines text)

commas_to_newlines-Without : (s : Text) → Without b',' (commas_to_newlines s)
commas_to_newlines-Without [] = tt
commas_to_newlines-Without (c ∷ s) = elim (Bool-cases (c == b',')) [
  | inl comma ↦ rw comma ((λ e. ground (arith, e)), commas_to_newlines-Without s)
  | inr other ↦ rw other ((λ e. ground (arith, e, other)), commas_to_newlines-Without s)
]

split_terms-no_comma : (text : Text) → All (Without b',') (split_terms false text)
unfolding split_terms
split_terms-no_comma text =
    split_on-All (λ c. c ≢ b',') newline (commas_to_newlines text) (commas_to_newlines-Without text)

-- An item of a list: some text, without white at its ends, and on one line; in a tag picker without a
-- comma too.
pub record IsItem (lines : Bool) (item : Text) : Type 0 where
  pub full : is_full item ≡ true
  pub trimmed : trim item ≡ item
  pub one_line : Without newline item
  pub no_comma : lines ≡ false → Without b',' item

terms_of-no_comma :
    (lines : Bool) (text : Text) → lines ≡ false → All (Without b',') (terms_of lines text)
unfolding terms_of
terms_of-no_comma true text e = ground (arith, e)
terms_of-no_comma false text e =
    keep-All (Without b',') is_full _ (trims-All (λ c. c ≢ b',') _ (split_terms-no_comma text))

-- The facts of each item, put together.
IsItem-all :
    (lines : Bool) (items : List Text)
    → All (λ i. is_full i ≡ true) items
    → All (λ i. trim i ≡ i) items
    → All (Without newline) items
    → (lines ≡ false → All (Without b',') items)
    → All (IsItem lines) items
IsItem-all lines [] h k l m = tt
IsItem-all lines (i ∷ is) (p, h) (q, k) (r, l) m = (
  record { full = p; trimmed = q; one_line = r; no_comma = λ e. (m e).0 },
  IsItem-all lines is h k l (λ e. (m e).1),
)

-- Whatever is typed or pasted into the box of a list field, each item that it adds is a text that is
-- not empty, has no white at its ends, and has no line break; in a tag picker it has no comma either.
pub terms_of-IsItem : (lines : Bool) (text : Text) → All (IsItem lines) (terms_of lines text)
unfolding terms_of
terms_of-IsItem lines text =
    IsItem-all lines (terms_of lines text)
      (keep-passes is_full (map (λ w. trim w) (split_terms lines text)))
      (keep-All (λ i. trim i ≡ i) is_full _ (trims-trimmed (split_terms lines text)))
      (keep-All (Without newline) is_full _
        (trims-All (λ c. c ≢ newline) _ (split_terms-no_newline lines text)))
      (terms_of-no_comma lines text)
