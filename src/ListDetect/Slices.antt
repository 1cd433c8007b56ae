-- ===== src/ListDetect/Slices.antt =====
-- What the rebuilt slice holds.
use kiln_cms.Prelude.{
  ℕ, ◌+◌, ◌-◌, some, ◌≡◌, refl, sym, ap, subst, ◌∙◌, ◌⊎◌, inl, inr, List, [], ◌∷◌, ◌++◌, map, All,
  append_assoc, take, drop, length, length-append, length-map, take-append, drop-append, List-cases,
  ap₂, arith,
}
use kiln_cms.ListDetect.{
  Marker, bullet, ordered, Kind, bullets, numbers, marker_length, Paste, Run, marker_at, list_runs,
  Block, plain, list, list_of, rebuild, listify_slice,
}
use kiln_cms.ListDetect.Runs.{IsWeak, Bulleted, Numbered, ItemsFit, Splits, list_runs-Splits}

module _ (paste : Paste) where
  open paste use {Node, cut}

  -- The nodes of the slice, in order, whether in a list or not.
  abbrev pub nodes_in : List (Block paste) → List Node
  nodes_in [] = []
  nodes_in (plain node ∷ blocks) = node ∷ nodes_in blocks
  nodes_in (list kind items ∷ blocks) = items ++ nodes_in blocks

  -- The node as it was, unless it starts with a glyph; or without its own marker.
  abbrev pub IsTrimmed : Node → Node → Type 0
  IsTrimmed node out =
      ((out ≡ node) × IsWeak paste node)
      ⊎ ((m : Marker) × (marker_at paste node ≡ some m) × (out ≡ cut (marker_length m) node))

  -- The nodes one by one, in the same order.
  abbrev pub Trimmed : List Node → List Node → Type 0
  Trimmed [] [] = Unit
  Trimmed (node ∷ nodes) (out ∷ outs) = IsTrimmed node out × Trimmed nodes outs
  Trimmed _ _ = ⊥

  Trimmed-append :
      (xs ys xs' ys' : List Node)
      → Trimmed xs xs'
      → Trimmed ys ys'
      → Trimmed (xs ++ ys) (xs' ++ ys')
  Trimmed-append [] ys [] ys' h k = k
  Trimmed-append [] ys (_ ∷ _) ys' h k = absurd h
  Trimmed-append (_ ∷ _) ys [] ys' h k = absurd h
  Trimmed-append (x ∷ xs) ys (x' ∷ xs') ys' (p, h) k = (p, Trimmed-append xs ys xs' ys' h k)

  Trimmed-refl : (nodes : List Node) → All (IsWeak paste) nodes → Trimmed nodes nodes
  Trimmed-refl [] h = tt
  Trimmed-refl (node ∷ nodes) (w, h) = (inl (refl, w), Trimmed-refl nodes h)

  Bulleted-Trimmed :
      (items : List (Node × ℕ))
      → Bulleted paste items
      → Trimmed (map (λ item. item.0) items) (map (λ item. cut item.1 item.0) items)
  Bulleted-Trimmed [] h = tt
  Bulleted-Trimmed (item ∷ items) ((strong, e), h) =
      (inr (bullet strong item.1, e, refl), Bulleted-Trimmed items h)

  Numbered-Trimmed :
      (k : ℕ) (items : List (Node × ℕ))
      → Numbered paste k items
      → Trimmed (map (λ item. item.0) items) (map (λ item. cut item.1 item.0) items)
  Numbered-Trimmed k [] h = tt
  Numbered-Trimmed k (item ∷ items) (e, h) =
      (inr (ordered k item.1, e, refl), Numbered-Trimmed (k + 1) items h)

  ItemsFit-Trimmed :
      (kind : Kind) (items : List (Node × ℕ))
      → ItemsFit paste kind items
      → Trimmed (map (λ item. item.0) items) (map (λ item. cut item.1 item.0) items)
  ItemsFit-Trimmed bullets items h = Bulleted-Trimmed items h
  ItemsFit-Trimmed numbers items h = Numbered-Trimmed 1 items h

  nodes_in-plain : (nodes : List Node) → nodes_in (map plain nodes) ≡ nodes
  nodes_in-plain [] = refl
  nodes_in-plain (node ∷ nodes) = ap (λ l. node ∷ l) (nodes_in-plain nodes)

  nodes_in-plain_append :
      (nodes : List Node) (blocks : List (Block paste))
      → nodes_in (map plain nodes ++ blocks) ≡ nodes ++ nodes_in blocks
  nodes_in-plain_append [] blocks = refl
  nodes_in-plain_append (node ∷ nodes) blocks =
      ap (λ l. node ∷ l) (nodes_in-plain_append nodes blocks)

  rebuild-Trimmed :
      (i : ℕ) (nodes : List Node) (runs : List (Run paste))
      → Splits paste i nodes runs
      → Trimmed nodes (nodes_in (rebuild paste i nodes runs))
  unfolding rebuild list_of
  rebuild-Trimmed i nodes [] h =
      subst (Trimmed nodes) (sym (nodes_in-plain nodes)) (Trimmed-refl nodes h)
  rebuild-Trimmed i nodes (run ∷ runs) (before, after, e, at, w, h, rest) =
      let size : run.start - i ≡ length before = omega (arith, at) in
      let reach : run.end_ + 1 - i ≡ length (before ++ map (λ item. item.0) run.items) = ground (
        arith,
        at,
        h.length_fits,
        length-append before (map (λ item. item.0) run.items),
        length-map (λ item. item.0) run.items,
      ) in
      let taken : take (run.start - i) nodes ≡ before = ap₂ take size e ∙ take-append before _ in
      let dropped : drop (run.end_ + 1 - i) nodes ≡ after =
        ap₂ drop reach (e ∙ sym (append_assoc before _ after))
        ∙ drop-append (before ++ map (λ item. item.0) run.items) after in
      let whole : nodes_in (rebuild paste i nodes (run ∷ runs))
          ≡ before
            ++ (map (λ item. cut item.1 item.0) run.items
                ++ nodes_in (rebuild paste (run.end_ + 1) after runs)) =
        nodes_in-plain_append (take (run.start - i) nodes) _
        ∙ ap₂
            (λ b a.
              b
              ++ (map (λ item. cut item.1 item.0) run.items
                  ++ nodes_in (rebuild paste (run.end_ + 1) a runs)))
            taken dropped in
      subst (Trimmed nodes) (sym whole) (
        subst
          (λ l. Trimmed l (
            before
            ++ (map (λ item. cut item.1 item.0) run.items
                ++ nodes_in (rebuild paste (run.end_ + 1) after runs))))
          (sym e)
          (Trimmed-append before _ before _ (Trimmed-refl before w) (
            Trimmed-append (map (λ item. item.0) run.items) after _ _
              (ItemsFit-Trimmed run.kind run.items h.fit)
              (rebuild-Trimmed (run.end_ + 1) after runs rest))))

  listify_slice-rebuild :
      (nodes : List Node) (open_start open_end : ℕ)
      → (listify_slice paste nodes open_start open_end).content
        ≡ rebuild paste 0 nodes (list_runs paste nodes)
  unfolding listify_slice rebuild
  listify_slice-rebuild nodes open_start open_end = elim (List-cases (list_runs paste nodes)) [
    | inl empty ↦ rw (empty, listify_slice) refl
    | inr (run, runs, e) ↦ rw (e, listify_slice) refl
  ]

  -- No node of a pasted slice is lost, doubled or moved: in order, each stands in the rebuilt slice
  -- as it was, or without its own marker; and a paragraph that starts with a bullet glyph, with more
  -- text after it, is never left as it was.
  pub listify_slice-Trimmed :
      (nodes : List Node) (open_start open_end : ℕ)
      → Trimmed nodes (nodes_in (listify_slice paste nodes open_start open_end).content)
  listify_slice-Trimmed nodes open_start open_end =
      subst (λ blocks. Trimmed nodes (nodes_in blocks))
        (sym (listify_slice-rebuild nodes open_start open_end))
        (rebuild-Trimmed 0 nodes (list_runs paste nodes) (list_runs-Splits paste nodes).0)
