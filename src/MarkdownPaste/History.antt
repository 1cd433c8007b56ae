-- ===== src/MarkdownPaste/History.antt =====
-- Where the conversion that the notice offers to undo comes from.
use kiln_cms.Prelude.{
  ℕ, ◌≡◌, refl, sym, ap, subst, ◌∙◌, true, false, none, some, some-injective, List, [], ◌∷◌, ◌++◌,
  append_assoc, append-nil, Bool-cases, Option-cases, ◌⊎◌, inl, inr, arith,
}
use kiln_cms.MarkdownPaste.{
  Editor, open_ask, range_of, Last, Ask, Pasting, on_update, set_doc, restore, take_last, on_undo,
  on_plain, land_plain, land, PasteEvent, edits, pastes, replies, times_out, undo, plain,
  notice_ends, dismisses, step, run,
}

module _ (editor : Editor) where
  open editor use {Doc, Converted, eq, insert_converted}

  pub on_update-doc : (m : Pasting editor) → (on_update editor m).doc ≡ m.doc
  unfolding on_update
  on_update-doc m = elim (Option-cases m.last) [
    | inl none_left ↦ rw (none_left, on_update) refl
    | inr (k, has) ↦ elim (Bool-cases (eq m.doc k.doc)) [
      | inl same ↦ rw (has, on_update, same) refl
      | inr edited ↦ rw (has, on_update, edited) refl
    ]
  ]

  set_doc-last :
      (d : Doc) (m : Pasting editor) (l : Last editor)
      → (set_doc editor d m).last ≡ some l
      → m.last ≡ some l
  unfolding set_doc on_update
  set_doc-last d m l e = elim (Option-cases m.last) [
    | inl none_left ↦ rw (none_left, on_update) at e
    | inr (k, has) ↦ elim (Bool-cases (eq d k.doc)) [
      | inl same ↦ rw (has, on_update, same) at e
      | inr edited ↦ ground (arith, rw (has, on_update, edited) at e)
    ]
  ]

  -- The conversion that lands in a document.
  abbrev pub conversion : Ask editor → ℕ × ℕ → Converted → Doc → Last editor
  conversion ask selection c doc = record {
    prior = doc;
    range = range_of editor ask selection doc;
    text = ask.text;
    doc = insert_converted doc (range_of editor ask selection doc) c;
  }

  land-last :
      (ask : Ask editor) (selection : ℕ × ℕ) (c : Converted) (m : Pasting editor) (l : Last editor)
      → (land editor ask selection c m).last ≡ some l
      → l ≡ conversion ask selection c m.doc
  unfolding land set_doc
  land-last ask selection c m l e =
      sym (some-injective _ _ e)
      ∙ ap (λ d. record (conversion ask selection c m.doc) { doc = d }) (on_update-doc _)

  -- The event is an answer that lands the conversion.
  abbrev Lands : PasteEvent editor → Pasting editor → Last editor → Type 0
  Lands e m l =
      (i : ℕ) × (selection : ℕ × ℕ) × (c : Converted) × (ask : Ask editor) × (e
        ≡ replies i selection (some c))
      × (open_ask editor i m.asks ≡ some ask)
      × (l ≡ conversion ask selection c m.doc)

  on_undo-last : (m : Pasting editor) (l : Last editor) → (on_undo editor m).last ≡ some l → ⊥
  unfolding on_undo take_last restore
  on_undo-last m l e = elim (Option-cases (take_last editor m).1) [
    | inl nothing_found ↦ ground (arith, rw (nothing_found, on_undo) at e)
    | inr (k, found) ↦
        ground (arith, set_doc-last _ (take_last editor m).0 l (rw (found, on_undo) at e))
  ]

  on_plain-last : (m : Pasting editor) (l : Last editor) → (on_plain editor m).last ≡ some l → ⊥
  unfolding on_plain take_last restore
  on_plain-last m l e = elim (Option-cases (take_last editor m).1) [
    | inl nothing_found ↦ ground (arith, rw (nothing_found, on_plain) at e)
    | inr (k, found) ↦ ground (
      arith,
      set_doc-last _ (take_last editor m).0 l
          (set_doc-last _ (restore editor k (take_last editor m).0) l (rw (found, on_plain) at e)),
    )
  ]

  -- After an event, the conversion that is offered is the one from before, or has just landed.
  step-last :
      (e : PasteEvent editor) (m : Pasting editor) (l : Last editor)
      → (step editor e m).last ≡ some l
      → (m.last ≡ some l) ⊎ Lands e m l
  unfolding step land_plain
  step-last (edits doc) m l h = inl (set_doc-last doc m l h)
  step-last (pastes true at text) m l h = inl (set_doc-last _ (record m { asks = _ }) l h)
  step-last (pastes false at text) m l h = inl h
  step-last (replies i selection none) m l h = elim (Option-cases (open_ask editor i m.asks)) [
    | inl settled ↦ inl (rw (settled, step) at h)
    | inr (ask, waits) ↦ inl (set_doc-last _ (record m { asks = _ }) l (rw (waits, step) at h))
  ]
  step-last (replies i selection (some c)) m l h = elim (Option-cases (open_ask editor i m.asks)) [
    | inl settled ↦ inl (rw (settled, step) at h)
    | inr (ask, waits) ↦
        inr
          (i, selection, c, ask, refl, waits, land-last ask selection c _ l (rw (waits, step) at h))
  ]
  step-last (times_out i selection) m l h = elim (Option-cases (open_ask editor i m.asks)) [
    | inl settled ↦ inl (rw (settled, step) at h)
    | inr (ask, waits) ↦ inl (set_doc-last _ (record m { asks = _ }) l (rw (waits, step) at h))
  ]
  step-last undo m l h = absurd (on_undo-last m l h)
  step-last plain m l h = absurd (on_plain-last m l h)
  step-last notice_ends m l h = inl h
  step-last dismisses m l h = inl h

  run-append :
      (es fs : List (PasteEvent editor)) (m : Pasting editor)
      → run editor (es ++ fs) m ≡ run editor fs (run editor es m)
  unfolding run
  run-append [] fs m = refl
  run-append (e ∷ es) fs m = run-append es fs (step editor e m)

  -- Among the events there is an answer that landed the conversion.
  pub record Landed (m : Pasting editor) (es : List (PasteEvent editor)) (l : Last editor)
      : Type 0 where
    pub before : List (PasteEvent editor)
    pub rest : List (PasteEvent editor)
    pub number : ℕ
    pub selection : ℕ × ℕ
    pub content : Converted
    pub ask : Ask editor
    pub split : es ≡ before ++ replies number selection (some content) ∷ rest
    pub asked : open_ask editor number (run editor before m).asks ≡ some ask
    pub is_it : l ≡ conversion ask selection content (run editor before m).doc

  abbrev IsTraced : Pasting editor → List (PasteEvent editor) → Type 0
  IsTraced m es = (l : Last editor) → (run editor es m).last ≡ some l → Landed m es l

  step-IsTraced :
      (es : List (PasteEvent editor)) (e : PasteEvent editor) (m : Pasting editor)
      → IsTraced m es
      → IsTraced m (es ++ e ∷ [])
  unfolding run
  step-IsTraced es e m h l offered =
      let after : (step editor e (run editor es m)).last ≡ some l =
        ap (λ n. n.last) (sym (run-append es (e ∷ []) m)) ∙ offered in
      elim (step-last e (run editor es m) l after) [
        | inl kept ↦
            let t = h l kept in
            record {
              before = t.before;
              rest = t.rest ++ e ∷ [];
              number = t.number;
              selection = t.selection;
              content = t.content;
              ask = t.ask;
              split = ap (λ fs. fs ++ e ∷ []) t.split ∙ append_assoc t.before _ (e ∷ []);
              asked = t.asked;
              is_it = t.is_it;
            }
        | inr (i, selection, c, ask, is_reply, waits, is_l) ↦ record {
          before = es;
          rest = [];
          number = i;
          selection = selection;
          content = c;
          ask = ask;
          split = ap (λ f. es ++ f ∷ []) is_reply;
          asked = waits;
          is_it = is_l;
        }
      ]

  run-IsTraced :
      (es fs : List (PasteEvent editor)) (m : Pasting editor)
      → IsTraced m es
      → IsTraced m (es ++ fs)
  run-IsTraced es [] m h = subst (IsTraced m) (sym (append-nil es)) h
  run-IsTraced es (f ∷ fs) m h =
      subst (IsTraced m) (append_assoc es (f ∷ []) fs)
        (run-IsTraced (es ++ f ∷ []) fs m (step-IsTraced es f m h))

  -- A conversion that is offered, where none was at first, has landed since.
  pub run-Landed :
      (es : List (PasteEvent editor)) (m : Pasting editor) (l : Last editor)
      → m.last ≡ none
      → (run editor es m).last ≡ some l
      → Landed m es l
  unfolding run
  run-Landed es m l e offered = run-IsTraced [] es m (λ k h. ground (arith, e, h)) l offered
