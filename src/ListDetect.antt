-- ===== src/ListDetect.antt =====
-- assets/js/list_detect.js, the pasted slice: paragraphs that start with a bullet or a number are
-- rebuilt as lists (`markerOf`, `listRuns`, `listifySlice`). A node of the editor is a parameter:
-- whether it is a paragraph, its first text, and its copy without so many characters.
pub mod Runs
pub mod Slices
use kiln_cms.Prelude.{
  ℕ, zero, suc, ◌+◌, ◌-◌, ◌*◌, Bool, true, false, not, ◌&&◌, ◌||◌, Option, none, some, List, [],
  ◌∷◌, ◌++◌, map, keep, any, length, take, drop, Text, codes, is_digit, is_space, leb, ltb, ◌==◌,
  if◌then◌else◌,
}

abbrev pub glyphs : Text
glyphs = codes "•◦▪▫‣⁃●○■□∙·"

-- The marks of `WEAK_BULLET`
abbrev pub weak_marks : Text
weak_marks = codes "-*+–—"

-- How many white characters the text starts with, and the rest.
unfoldable pub skip_spaces : Text → ℕ × Text
skip_spaces [] = (0, [])
skip_spaces (c ∷ s) =
    let (n, rest) = skip_spaces s in if is_space c then (suc n, rest) else (0, c ∷ s)

-- One of the marks and at least one white character, after the white of the line's start: the
-- length of the match of `GLYPH_BULLET` and `WEAK_BULLET`
unfoldable pub match_bullet : Text → Text → Option ℕ
match_bullet marks text =
    let (before, rest) = skip_spaces text in
    elim rest [
      | [] ↦ none
      | mark ∷ s ↦
          let (after, _) = skip_spaces s in
          if any (λ m. m == mark) marks && ltb 0 after then some (before + 1 + after) else none
    ]

-- Up to so many digits: how many there are, their number, and the rest.
unfoldable pub read_digits : ℕ → ℕ → Text → ℕ × ℕ × Text
read_digits zero n s = (0, n, s)
read_digits (suc f) n [] = (0, n, [])
read_digits (suc f) n (c ∷ s) =
    let (count, value, rest) = read_digits f (10 * n + (c - b'0')) s in
    if is_digit c then (suc count, value, rest) else (0, n, c ∷ s)

-- `NUMBERED`: the number, and the length of the match
unfoldable pub match_number : Text → Option (ℕ × ℕ)
match_number text =
    let (before, s) = skip_spaces text in
    let (digits, n, rest) = read_digits 3 0 s in
    elim rest [
      | [] ↦ none
      | c ∷ t ↦
          let (after, _) = skip_spaces t in
          if ltb 0 digits && (c == b'.' || c == b')') && ltb 0 after
          then some (n, before + digits + 1 + after)
          else none
    ]

-- A bullet, strong or weak, or the nth numbered item; and how many characters the marker takes.
pub data Marker : Type 0 where
  bullet : Bool → ℕ → Marker
  ordered : ℕ → ℕ → Marker

unfoldable pub marker_of : Text → Option Marker
marker_of text = elim (match_bullet glyphs text) [
  | some n ↦ some (bullet true n)
  | none ↦ elim (match_bullet weak_marks text) [
    | some n ↦ some (bullet false n)
    | none ↦ elim (match_number text) [ some (k, n) ↦ some (ordered k n) | none ↦ none ]
  ]
]

pub data Kind : Type 0 where
  bullets numbers : Kind

abbrev pub marker_length : Marker → ℕ
marker_length (bullet _ n) = n
marker_length (ordered _ n) = n

-- `run.kind === marker.kind && (marker.kind === "bullet" || marker.n === run.next)`
abbrev pub follows_on : Marker → Kind → ℕ → Bool
follows_on (bullet _ _) bullets next = true
follows_on (ordered k _) numbers next = k == next
follows_on _ _ next = false

-- `marker.kind === "bullet" || marker.n === 1`, and the kind of the run that begins
abbrev pub begins : Marker → Option Kind
begins (bullet _ _) = some bullets
begins (ordered k _) = if k == 1 then some numbers else none

abbrev pub is_strong : Marker → Bool
is_strong (bullet strong _) = strong
is_strong (ordered _ _) = false

abbrev pub next_after : Marker → ℕ → ℕ
next_after (bullet _ _) next = next
next_after (ordered _ _) next = next + 1

pub record Paste : Type 1 where
  pub Node : Type 0
  pub paragraph : Node → Bool
  pub first_text : Node → Option Text  -- the text of the first child, where that is text
  pub cut : ℕ → Node → Node  -- `node.copy(node.content.cut(…))`

module _ (paste : Paste) where
  open paste use {Node, paragraph, first_text, cut}

  pub record Run : Type 0 where
    pub kind : Kind
    pub strong : Bool
    pub start : ℕ
    pub end_ : ℕ
    pub next : ℕ
    pub items : List (Node × ℕ)

  -- The marker of a paragraph, where it fits wholly in the first text: `fits`
  unfoldable pub marker_at : Node → Option Marker
  marker_at node = if not (paragraph node) then none else elim (first_text node) [
    | none ↦ none
    | some text ↦ elim (marker_of text) [
      | none ↦ none
      | some m ↦ if ltb (marker_length m) (length text) then some m else none
    ]
  ]

  unfoldable pub extend : ℕ → Node → Marker → Run → Run
  extend i node m run = record run {
    items = run.items ++ (node, marker_length m) ∷ [];
    end_ = i;
    strong = run.strong || is_strong m;
    next = next_after m run.next;
  }

  unfoldable pub begin_run : ℕ → Node → Kind → Marker → Run
  begin_run i node kind m = record {
    kind = kind;
    strong = is_strong m;
    start = i;
    end_ = i;
    next = 2;
    items = (node, marker_length m) ∷ [];
  }

  -- The run that a node begins, if it begins one.
  unfoldable pub started : ℕ → Node → Option Run
  started i node = elim (marker_at node) [
    | none ↦ none
    | some m ↦ elim (begins m) [ none ↦ none | some kind ↦ some (begin_run i node kind m) ]
  ]

  -- `continues`: the present run with the node added
  unfoldable pub continued : ℕ → Node → Run → Option Run
  continued i node run = elim (marker_at node) [
    | none ↦ none
    | some m ↦ if follows_on m run.kind run.next then some (extend i node m run) else none
  ]

  -- The loop of `listRuns`, at the node with index i, with the present run.
  unfoldable pub runs_from : ℕ → Option Run → List Node → List Run
  runs_from i none [] = []
  runs_from i (some run) [] = run ∷ []
  runs_from i none (node ∷ nodes) = runs_from (i + 1) (started i node) nodes
  runs_from i (some run) (node ∷ nodes) =
      let closed = run ∷ runs_from (i + 1) (started i node) nodes in
      elim (continued i node run) [
        | none ↦ closed
        | some longer ↦ runs_from (i + 1) (some longer) nodes
      ]

  abbrev pub counts : Run → Bool
  counts run = leb 2 (length run.items) || run.strong

  unfoldable pub list_runs : List Node → List Run
  unfolding runs_from started continued
  list_runs nodes = keep counts (runs_from 0 none nodes)

  -- What the slice holds: the nodes, and lists of nodes.
  pub data Block : Type 0 where
    plain : Node → Block
    list : Kind → List Node → Block

  unfoldable pub list_of : Run → Block
  list_of run = list run.kind (map (λ item. cut item.1 item.0) run.items)

  -- `out`, from the node with index i on.
  unfoldable pub rebuild : ℕ → List Node → List Run → List Block
  unfolding list_of
  rebuild i nodes [] = map plain nodes
  rebuild i nodes (run ∷ runs) =
      map plain (take (run.start - i) nodes)
      ++ list_of run ∷ rebuild (run.end_ + 1) (drop (run.end_ + 1 - i) nodes) runs

  -- A slice: its blocks, and how far it is open at each end.
  pub record Slice : Type 0 where
    pub content : List Block
    pub open_start : ℕ
    pub open_end : ℕ

  abbrev pub final_end : ℕ → List Run → ℕ
  final_end e [] = e
  final_end e (run ∷ runs) = final_end run.end_ runs

  -- `listifySlice`, where the schema has lists
  unfoldable pub listify_slice : List Node → ℕ → ℕ → Slice
  unfolding list_runs rebuild
  listify_slice nodes open_start open_end = elim (list_runs nodes) [
    | [] ↦ record { content = map plain nodes; open_start = open_start; open_end = open_end }
    | run ∷ runs ↦ record {
      content = rebuild 0 nodes (run ∷ runs);
      open_start = if run.start == 0 then 0 else open_start;
      open_end = if final_end run.end_ runs == length nodes - 1 then 0 else open_end;
    }
  ]
