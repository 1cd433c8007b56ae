-- ===== src/MarkdownPaste/Undo.antt =====
-- What the notice's buttons bring back.
use kiln_cms.Prelude.{
  ℕ, ◌≡◌, refl, sym, ap, ap₂, ◌∙◌, true, false, Option, none, some, List, [], ◌∷◌, ◌++◌, take, drop,
  Bool-cases, Option-cases, inl, inr, arith,
}
use kiln_cms.MarkdownPaste.{
  Editor, no_overlap, open_ask, range_of, Last, Ask, Pasting, on_update, set_doc, restored, restore,
  still, take_last, on_undo, on_plain, land_plain, land, PasteEvent, edits, pastes, replies,
  times_out, undo, plain, notice_ends, dismisses, step, run, split_lines,
}
use kiln_cms.MarkdownPaste.History.{on_update-doc, run-Landed}
use kiln_cms.MarkdownPaste.Overlap.{take-split, no_overlap-AreEnds}

module _ (editor : Editor) where
  open editor use {
    Doc, Converted, tokens, content, eq, find_diff_start, find_diff_end, slice, replace,
    insert_converted, insert_paragraphs, eq_iff, diff_start-none, diff_start-some, diff_end-same,
    slice-between, replace-fits,
  }

  restored-prior : (l : Last editor) → restored editor l l.doc ≡ l.prior
  unfolding restored
  restored-prior l = elim (Option-cases (find_diff_start l.prior l.doc)) [
    | inl same ↦ rw (same, restored) (sym (diff_start-none l.prior l.doc same))
    | inr (start, e) ↦
        let (m, n) = find_diff_end l.prior l.doc in
        let (la, lb, agree) = diff_start-some l.prior l.doc start e in
        let (lm, ln, ends) = diff_end-same l.prior l.doc in
        let (h, ps, qs) =
          no_overlap-AreEnds (tokens l.prior) (tokens l.doc) start m n la lb
            (record { in_first = lm; in_second = ln; agree = ends }) in
        let (p, q) = no_overlap start (m, n) in
        let between = slice l.prior start p in
        let spliced : take start (tokens l.doc) ++ (content between ++ drop q (tokens l.doc))
            ≡ tokens l.prior =
          ap₂ (λ front rest. front ++ (content between ++ rest)) (sym agree) (sym h.agree)
          ∙ (ap (λ s. take start (tokens l.prior) ++ (s ++ drop p (tokens l.prior)))
                (slice-between l.prior start p ps h.in_first)
              ∙ take-split start p (tokens l.prior) ps) in
        rw (e, restored) (replace-fits l.doc start q between l.prior qs h.in_second (sym spliced))
  ]

  -- The conversion that the notice offers to undo is one that nothing has been edited since.
  abbrev pub IsFresh : Pasting editor → Type 0
  IsFresh m = (l : Last editor) → m.last ≡ some l → m.doc ≡ l.doc

  abbrev doc_of : Doc → Option (Last editor) → Doc
  doc_of d none = d
  doc_of d (some l) = l.doc

  on_update-IsFresh : (m : Pasting editor) → IsFresh (on_update editor m)
  unfolding on_update
  on_update-IsFresh m l e = elim (Option-cases m.last) [
    | inl none_left ↦ ground (arith, rw (none_left, on_update) at e)
    | inr (k, has) ↦ elim (Bool-cases (eq m.doc k.doc)) [
      | inl same ↦
          let kept : some k ≡ some l = sym has ∙ (rw (has, on_update, same) at e) in
          on_update-doc editor m ∙ ((eq_iff m.doc k.doc).0 same ∙ ap (doc_of k.doc) kept)
      | inr edited ↦ ground (arith, rw (has, on_update, edited) at e)
    ]
  ]

  set_doc-IsFresh : (d : Doc) (m : Pasting editor) → IsFresh (set_doc editor d m)
  unfolding set_doc
  set_doc-IsFresh d m = on_update-IsFresh (record m { doc = d })

  none-IsFresh : (m : Pasting editor) → m.last ≡ none → IsFresh m
  none-IsFresh m e l e' = ground (arith, e, e')

  still-last :
      (m : Pasting editor) (l : Last editor)
      → IsFresh m
      → m.last ≡ some l
      → still editor m.last m.doc ≡ some l
  still-last m l fresh e =
      let same : eq m.doc l.doc ≡ true = (eq_iff m.doc l.doc).1 (fresh l e) in
      ap (λ o. still editor o m.doc) e ∙ rw same refl

  on_undo-lem :
      (m : Pasting editor) (l : Last editor)
      → IsFresh m
      → m.last ≡ some l
      → on_undo editor m ≡ restore editor l (take_last editor m).0
  unfolding on_undo take_last
  on_undo-lem m l fresh e = rw (still-last m l fresh e, on_undo) refl

  restore-doc :
      (m : Pasting editor) (l : Last editor) → m.doc ≡ l.doc → (restore editor l m).doc ≡ l.prior
  unfolding restore set_doc
  restore-doc m l same =
      on_update-doc editor (record m { doc = restored editor l m.doc })
      ∙ (ap (restored editor l) same ∙ restored-prior l)

  restore-last :
      (m : Pasting editor) (l : Last editor) → m.last ≡ none → (restore editor l m).last ≡ none
  unfolding restore set_doc on_update
  restore-last m l e = rw (e, on_update) e

  on_plain-doc :
      (m : Pasting editor) (l : Last editor)
      → IsFresh m
      → m.last ≡ some l
      → (on_plain editor m).doc
        ≡ insert_paragraphs
            (restore editor l (take_last editor m).0).doc
            l.range
            (split_lines l.text)
  unfolding on_plain take_last set_doc
  on_plain-doc m l fresh e =
      rw (still-last m l fresh e, on_plain)
        (on_update-doc editor (record (restore editor l (record m { last = none; shown = false })) {
          doc =
              insert_paragraphs (restore editor l (record m { last = none; shown = false })).doc
                l.range (split_lines l.text);
        }))

  land-IsFresh :
      (ask : Ask editor) (selection : ℕ × ℕ) (content : Converted) (m : Pasting editor)
      → IsFresh (land editor ask selection content m)
  unfolding land
  land-IsFresh ask selection content m l e = ap (doc_of l.doc) e

  take_last-IsFresh : (m : Pasting editor) → IsFresh (take_last editor m).0
  unfolding take_last
  take_last-IsFresh m l e = ground (arith, e)

  on_undo-IsFresh : (m : Pasting editor) → IsFresh (on_undo editor m)
  unfolding on_undo restore
  on_undo-IsFresh m = elim (Option-cases (take_last editor m).1) [
    | inl nothing_found ↦ rw (nothing_found, on_undo) (take_last-IsFresh m)
    | inr (l, found) ↦ rw (found, on_undo) (set_doc-IsFresh _ _)
  ]

  on_plain-IsFresh : (m : Pasting editor) → IsFresh (on_plain editor m)
  unfolding on_plain
  on_plain-IsFresh m = elim (Option-cases (take_last editor m).1) [
    | inl nothing_found ↦ rw (nothing_found, on_plain) (take_last-IsFresh m)
    | inr (l, found) ↦ rw (found, on_plain) (set_doc-IsFresh _ _)
  ]

  step-IsFresh :
      (e : PasteEvent editor) (m : Pasting editor) → IsFresh m → IsFresh (step editor e m)
  unfolding step land_plain
  step-IsFresh (edits doc) m h = set_doc-IsFresh doc m
  step-IsFresh (pastes true at text) m h = set_doc-IsFresh _ _
  step-IsFresh (pastes false at text) m h = h
  step-IsFresh (replies i selection none) m h = elim (Option-cases (open_ask editor i m.asks)) [
    | inl settled ↦ rw (settled, step) h
    | inr (ask, waits) ↦ rw (waits, step) (set_doc-IsFresh _ _)
  ]
  step-IsFresh (replies i selection (some c)) m h = elim (Option-cases (open_ask editor i m.asks)) [
    | inl settled ↦ rw (settled, step) h
    | inr (ask, waits) ↦ rw (waits, step) (land-IsFresh ask selection c _)
  ]
  step-IsFresh (times_out i selection) m h = elim (Option-cases (open_ask editor i m.asks)) [
    | inl settled ↦ rw (settled, step) h
    | inr (ask, waits) ↦ rw (waits, step) (set_doc-IsFresh _ _)
  ]
  step-IsFresh undo m h = on_undo-IsFresh m
  step-IsFresh plain m h = on_plain-IsFresh m
  step-IsFresh notice_ends m h = h
  step-IsFresh dismisses m h = h

  run-IsFresh :
      (es : List (PasteEvent editor)) (m : Pasting editor) → IsFresh m → IsFresh (run editor es m)
  unfolding run
  run-IsFresh [] m h = h
  run-IsFresh (e ∷ es) m h = run-IsFresh es (step editor e m) (step-IsFresh e m h)

  -- The events are some, then an answer with a conversion to a paste that waits, then others that
  -- left the document as the conversion made it. Undo brings back the document from before that
  -- answer, and then nothing is offered; "Paste as plain text" puts the lines of the pasted text
  -- where the conversion went in that document.
  pub record IsUndone (m : Pasting editor) (es : List (PasteEvent editor)) : Type 0 where
    pub before : List (PasteEvent editor)
    pub rest : List (PasteEvent editor)
    pub number : ℕ
    pub selection : ℕ × ℕ
    pub reply : Converted
    pub ask : Ask editor
    pub split : es ≡ before ++ replies number selection (some reply) ∷ rest
    pub asked : open_ask editor number (run editor before m).asks ≡ some ask
    pub landed :
        (run editor es m).doc
        ≡ insert_converted
            (run editor before m).doc
            (range_of editor ask selection (run editor before m).doc)
            reply
    pub undone : (on_undo editor (run editor es m)).doc ≡ (run editor before m).doc
    pub spent : (on_undo editor (run editor es m)).last ≡ none
    pub as_plain :
        (on_plain editor (run editor es m)).doc
        ≡ insert_paragraphs
            (run editor before m).doc
            (range_of editor ask selection (run editor before m).doc)
            (split_lines ask.text)

  -- Nothing is offered at first. Whatever happens then, while a conversion is offered to be undone,
  -- there was an answer that it landed with, and the document is still as it was right after that
  -- answer. Undo brings back exactly the document from right before it, and then offers nothing more;
  -- "Paste as plain text" leaves the document that putting the lines of the pasted text in the same
  -- place would have left.
  pub run-undo :
      (es : List (PasteEvent editor)) (m : Pasting editor) {l : Last editor}
      → m.last ≡ none
      → (run editor es m).last ≡ some l
      → IsUndone m es
  unfolding take_last
  run-undo es m {l} e offered =
      let n = run editor es m in
      let fresh : IsFresh n = run-IsFresh es m (none-IsFresh m e) in
      let h = run-Landed editor es m l e offered in
      let t = (take_last editor n).0 in
      let back : (restore editor l t).doc ≡ l.prior = restore-doc t l (fresh l offered) in
      let undone = on_undo-lem n l fresh offered in
      record {
        before = h.before;
        rest = h.rest;
        number = h.number;
        selection = h.selection;
        reply = h.content;
        ask = h.ask;
        split = h.split;
        asked = h.asked;
        landed = fresh l offered ∙ ap (λ k. k.doc) h.is_it;
        undone = ap (λ r. r.doc) undone ∙ (back ∙ ap (λ k. k.prior) h.is_it);
        spent = ap (λ r. r.last) undone ∙ restore-last t l refl;
        as_plain =
            on_plain-doc n l fresh offered
            ∙ (ap (λ d. insert_paragraphs d l.range (split_lines l.text)) back
                ∙ ap (λ k. insert_paragraphs k.prior k.range (split_lines k.text)) h.is_it);
      }
