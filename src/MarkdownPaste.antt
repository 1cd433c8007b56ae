-- ===== src/MarkdownPaste.antt =====
-- assets/js/markdown_paste.js: a paste that the server converts, its landing, and the notice whose
-- buttons take it back. The editor (ProseMirror) is a parameter, with what its documentation says of
-- the operations that are used. Which clipboard reads as Markdown is left out.
pub mod Overlap
pub mod History
pub mod Undo
use kiln_cms.Prelude.{
  ℕ, zero, suc, ◌+◌, ◌-◌, ◌≤◌, ◌≡◌, ◌↔◌, Bool, true, false, not, ◌&&◌, Option, none, some, List, [],
  ◌∷◌, ◌++◌, take, drop, length, get_elem?, Text, ltb, ◌==◌, if◌then◌else◌,
}

-- A document is indexed as a flat sequence of tokens, and a slice has the tokens of its content; a
-- sequence need not be that of a document. `insert` is `insertContentAt`; a document that the server
-- converted is content of its own kind. `replace` fits the slice to the place: where its content
-- makes a document there as it stands, that is the document.
pub record Editor : Type 1 where
  pub Token : Type 0
  pub Doc : Type 0
  pub Slice : Type 0
  pub Converted : Type 0
  pub tokens : Doc → List Token
  pub content : Slice → List Token
  pub eq : Doc → Doc → Bool
  pub find_diff_start : Doc → Doc → Option ℕ
  pub find_diff_end : Doc → Doc → ℕ × ℕ
  pub slice : Doc → ℕ → ℕ → Slice
  pub replace : Doc → ℕ → ℕ → Slice → Doc
  pub insert_converted : Doc → ℕ × ℕ → Converted → Doc
  pub insert_paragraphs : Doc → ℕ × ℕ → List Text → Doc
  pub eq_iff : (a b : Doc) → (eq a b ≡ true) ↔ (a ≡ b)
  pub diff_start-none : (a b : Doc) → find_diff_start a b ≡ none → a ≡ b
  pub diff_start-some :
      (a b : Doc) (n : ℕ)
      → find_diff_start a b ≡ some n
      → (n ≤ length (tokens a)) × (n ≤ length (tokens b)) × (take n (tokens a) ≡ take n (tokens b))
  pub diff_end-same :
      (a b : Doc)
      → let (m, n) = find_diff_end a b in
        (m ≤ length (tokens a)) × (n ≤ length (tokens b)) × (drop m (tokens a) ≡ drop n (tokens b))
  pub slice-between :
      (a : Doc) (m n : ℕ)
      → m ≤ n
      → n ≤ length (tokens a)
      → content (slice a m n) ≡ drop m (take n (tokens a))
  pub replace-fits :
      (a : Doc) (m n : ℕ) (s : Slice) (b : Doc)
      → m ≤ n
      → n ≤ length (tokens a)
      → tokens b ≡ take m (tokens a) ++ (content s ++ drop n (tokens a))
      → replace a m n s ≡ b

-- `text.split(/\r?\n/)`
abbrev is_newline : Text → Bool
is_newline [] = false
is_newline (c ∷ _) = c == 10

abbrev prepend : ℕ → List Text → List Text
prepend c [] = (c ∷ []) ∷ []
prepend c (line ∷ lines) = (c ∷ line) ∷ lines

unfoldable pub split_lines : Text → List Text
split_lines [] = [] ∷ []
split_lines (c ∷ s) =
    let rest = split_lines s in
    if c == 10 then [] ∷ rest else if c == 13 && is_newline s then rest else prepend c rest

-- The end of the difference in both documents, moved on where it overlaps the start.
unfoldable pub no_overlap : ℕ → ℕ × ℕ → ℕ × ℕ
no_overlap start (end_prior, end_doc) =
    let (p, d) =
      if ltb end_prior start
      then (start, end_doc + (start - end_prior))
      else (end_prior, end_doc) in
    if ltb d start then (p + (start - d), start) else (p, d)

module _ (editor : Editor) where
  open editor use {
    Doc, Converted, eq, find_diff_start, find_diff_end, slice, replace, insert_converted,
    insert_paragraphs,
  }

  -- The most recent conversion: the document before it and after it, its range and its text.
  pub record Last : Type 0 where
    pub prior : Doc
    pub range : ℕ × ℕ
    pub text : Text
    pub doc : Doc

  -- A paste that waits for the server.
  pub record Ask : Type 0 where
    pub before : Doc
    pub at : ℕ × ℕ
    pub text : Text
    pub settled : Bool

  pub record Pasting : Type 0 where
    pub doc : Doc
    pub last : Option Last
    pub shown : Bool
    pub asks : List Ask

  -- `onUpdate`: an edit retires the notice.
  unfoldable pub on_update : Pasting → Pasting
  on_update m = elim m.last [
    | none ↦ m
    | some l ↦ if eq m.doc l.doc then m else record m { last = none; shown = false }
  ]

  -- The document changes, and the editor tells of it.
  unfoldable pub set_doc : Doc → Pasting → Pasting
  set_doc doc m = on_update (record m { doc = doc })

  unfoldable pub restored : Last → Doc → Doc
  restored l doc = elim (find_diff_start l.prior l.doc) [
    | none ↦ doc
    | some start ↦
        let (end_prior, end_doc) = no_overlap start (find_diff_end l.prior l.doc) in
        replace doc start end_doc (slice l.prior start end_prior)
  ]

  unfoldable pub restore : Last → Pasting → Pasting
  restore l m = set_doc (restored l m.doc) m

  abbrev pub still : Option Last → Doc → Option Last
  still none doc = none
  still (some l) doc = if eq doc l.doc then some l else none

  -- `take`
  unfoldable pub take_last : Pasting → Pasting × Option Last
  take_last m = (record m { last = none; shown = false }, still m.last m.doc)

  unfoldable pub on_undo : Pasting → Pasting
  on_undo m = let (n, found) = take_last m in elim found [ none ↦ n | some l ↦ restore l n ]

  unfoldable pub on_plain : Pasting → Pasting
  on_plain m =
      let (n, found) = take_last m in
      elim found [
        | none ↦ n
        | some l ↦
            let back = restore l n in
            set_doc (insert_paragraphs back.doc l.range (split_lines l.text)) back
      ]

  -- The range that a paste lands on: the one it was over, or the selection now.
  abbrev pub range_of : Ask → ℕ × ℕ → Doc → ℕ × ℕ
  range_of ask selection doc = if eq doc ask.before then ask.at else selection

  -- `land`, without a notice and with one
  unfoldable pub land_plain : Ask → ℕ × ℕ → Pasting → Pasting
  land_plain ask selection m =
      set_doc (insert_paragraphs m.doc (range_of ask selection m.doc) (split_lines ask.text)) m

  unfoldable pub land : Ask → ℕ × ℕ → Converted → Pasting → Pasting
  land ask selection content m =
      let range = range_of ask selection m.doc in
      let n = set_doc (insert_converted m.doc range content) m in
      record n {
        last = some (record { prior = m.doc; range = range; text = ask.text; doc = n.doc });
        shown = true;
      }

  abbrev pub settle : ℕ → List Ask → List Ask
  settle i [] = []
  settle zero (a ∷ asks) = record a { settled = true } ∷ asks
  settle (suc i) (a ∷ asks) = a ∷ settle i asks

  -- The open paste with that number.
  abbrev pub open_ask : ℕ → List Ask → Option Ask
  open_ask i asks = elim (get_elem? asks i) [
    | none ↦ none
    | some a ↦ if a.settled then none else some a
  ]

  -- What happens: the author edits, pastes (what reads as Markdown, too large to be converted or
  -- not), or presses a button of the notice; the server answers, with content or without; an answer
  -- is late; the notice has been shown for long enough.
  pub data PasteEvent : Type 0 where
    edits : Doc → PasteEvent
    pastes : Bool → ℕ × ℕ → Text → PasteEvent
    replies : ℕ → ℕ × ℕ → Option Converted → PasteEvent
    times_out : ℕ → ℕ × ℕ → PasteEvent
    undo plain notice_ends dismisses : PasteEvent

  unfoldable pub step : PasteEvent → Pasting → Pasting
  step (edits doc) m = set_doc doc m
  step (pastes too_large at text) m =
      let ask : Ask = record { before = m.doc; at = at; text = text; settled = too_large } in
      let asked : Pasting = record m { asks = m.asks ++ ask ∷ [] } in
      if too_large then land_plain ask at asked else asked
  step (replies i selection content) m = elim (open_ask i m.asks) [
    | none ↦ m
    | some ask ↦
        let n = record m { asks = settle i m.asks } in
        elim content [ none ↦ land_plain ask selection n | some c ↦ land ask selection c n ]
  ]
  step (times_out i selection) m = elim (open_ask i m.asks) [
    | none ↦ m
    | some ask ↦ land_plain ask selection (record m { asks = settle i m.asks })
  ]
  step undo m = on_undo m
  step plain m = on_plain m
  step notice_ends m = record m { shown = false }
  step dismisses m = record m { shown = false }

  unfoldable pub run : List PasteEvent → Pasting → Pasting
  run [] m = m
  run (e ∷ es) m = run es (step e m)
