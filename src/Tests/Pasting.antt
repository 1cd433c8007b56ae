-- ===== src/Tests/Pasting.antt =====
-- Runs of markdown_paste.js over documents of numbers.
use kiln_cms.Prelude.{
  ℕ, zero, suc, ◌≤◌, ◌≡◌, refl, sym, ap, ap₂, ◌∙◌, false, Option, none, some, List, [], ◌∷◌, ◌++◌,
  take, drop, length, Text, text_eq, text_eq_iff, codes, ◌==◌, if◌then◌else◌, Bool-cases, inl, inr,
  Option-cases, arith,
}
use kiln_cms.MarkdownPaste.{
  Editor, Last, Pasting, PasteEvent, pastes, replies, run, step, on_update, set_doc, land,
  no_overlap,
}
use kiln_cms.MarkdownPaste.Undo.{IsUndone, run-undo}

abbrev longer : Option ℕ → Option ℕ
longer none = none
longer (some n) = some (suc n)

-- The length of the common start, where there is a difference.
abbrev common : List ℕ → List ℕ → Option ℕ
common [] [] = none
common [] (_ ∷ _) = some 0
common (_ ∷ _) [] = some 0
common (x ∷ a) (y ∷ b) = let rest = common a b in if x == y then longer rest else some 0

common-none : (a b : List ℕ) → common a b ≡ none → a ≡ b
common-none [] [] e = refl
common-none [] (_ ∷ _) e = ground (arith, e)
common-none (_ ∷ _) [] e = ground (arith, e)
common-none (x ∷ a) (y ∷ b) e = elim (Bool-cases (x == y)) [
  | inl same ↦ elim (Option-cases (common a b)) [
    | inl all_same ↦ ap₂ (λ z c. z ∷ c) (ground (arith, same)) (common-none a b all_same)
    | inr (n, some_) ↦ ground (arith, rw (same, some_) at e)
  ]
  | inr other ↦ ground (arith, rw other at e)
]

common-some :
    (a b : List ℕ) (n : ℕ)
    → common a b ≡ some n
    → (n ≤ length a) × (n ≤ length b) × (take n a ≡ take n b)
common-some [] [] n e = ground (arith, e)
common-some a b zero e = (omega arith, omega arith, refl)
common-some [] (_ ∷ _) (suc n) e = ground (arith, e)
common-some (_ ∷ _) [] (suc n) e = ground (arith, e)
common-some (x ∷ a) (y ∷ b) (suc n) e = elim (Bool-cases (x == y)) [
  | inl same ↦ elim (Option-cases (common a b)) [
    | inl all_same ↦ ground (arith, rw (same, all_same) at e)
    | inr (m, some_) ↦
        let n_is : m ≡ n = ground (arith, rw (same, some_) at e) in
        let (la, lb, t) = common-some a b n (some_ ∙ ap some n_is) in
        (omega (arith, la), omega (arith, lb), ap₂ (λ z c. z ∷ c) (ground (arith, same)) t)
  ]
  | inr other ↦ ground (arith, rw other at e)
]

drop-length : (a : List ℕ) → drop (length a) a ≡ []
drop-length [] = refl
drop-length (x ∷ a) = drop-length a

abbrev over : List ℕ → ℕ × ℕ → List ℕ → List ℕ
over doc (m, n) content = take m doc ++ (content ++ drop n doc)

abbrev paragraphs : List Text → List ℕ
paragraphs [] = []
paragraphs (line ∷ lines) = line ++ 10 ∷ paragraphs lines

abbrev editor : Editor
editor = record {
  Token = ℕ;
  Doc = List ℕ;
  Slice = List ℕ;
  Converted = List ℕ;
  tokens = λ a. a;
  content = λ s. s;
  eq = text_eq;
  find_diff_start = common;
  find_diff_end = λ a b. (length a, length b);
  slice = λ a m n. drop m (take n a);
  replace = λ a m n s. over a (m, n) s;
  insert_converted = over;
  insert_paragraphs = λ doc range lines. over doc range (paragraphs lines);
  eq_iff = text_eq_iff;
  diff_start-none = common-none;
  diff_start-some = common-some;
  diff_end-same = λ a b. (omega arith, omega arith, drop-length a ∙ sym (drop-length b));
  slice-between = λ a m n p q. refl;
  replace-fits = λ a m n s b p q e. sym e;
}

abbrev fresh : Pasting editor
fresh = record { doc = 1 ∷ 2 ∷ 3 ∷ []; last = none; shown = false; asks = [] }

-- "# a" is pasted over the middle of the document, and the server answers with two tokens.
abbrev answered : List (PasteEvent editor)
answered = pastes false (1, 2) (codes "# a") ∷ replies 0 (3, 3) (some (8 ∷ 2 ∷ [])) ∷ []

abbrev conversion : Last editor
conversion = record {
  prior = 1 ∷ 2 ∷ 3 ∷ [];
  range = (1, 2);
  text = codes "# a";
  doc = 1 ∷ 8 ∷ 2 ∷ 3 ∷ [];
}

answered-run : (run editor answered fresh).last ≡ some conversion
unfolding run step land set_doc on_update
answered-run = refl

run-undo_example : IsUndone editor fresh answered
run-undo_example = run-undo editor answered fresh refl answered-run

no_overlap-overlaps : no_overlap 3 (1, 2) ≡ (3, 4)
unfolding no_overlap
no_overlap-overlaps = refl
