-- ===== src/ListDetect/Runs.antt =====
-- The runs that `listRuns` finds among the pasted nodes.
use kiln_cms.Prelude.{
  ℕ, ◌+◌, Bool, true, false, Option, none, some, ◌≡◌, refl, sym, ap, subst, ◌∙◌, inl, inr, List, [],
  ◌∷◌, ◌++◌, map, keep, All, All-append, All-keep_test, length, length-append, length-map,
  map-append, append_assoc, Bool-cases, Option-cases, chain-some, if◌then◌else◌, arith,
}
use kiln_cms.ListDetect.{
  Marker, bullet, ordered, Kind, bullets, numbers, marker_length, follows_on, begins, is_strong,
  next_after, Paste, Run, marker_at, extend, begin_run, started, continued, runs_from, counts,
  list_runs,
}

module _ (paste : Paste) where
  open paste use {Node}

  -- Items with a bullet each.
  abbrev pub Bulleted : List (Node × ℕ) → Type 0
  Bulleted [] = Unit
  Bulleted (item ∷ items) =
      ((strong : Bool) × (marker_at paste item.0 ≡ some (bullet strong item.1))) × Bulleted items

  -- Items that are numbered from k on, without a gap.
  abbrev pub Numbered : ℕ → List (Node × ℕ) → Type 0
  Numbered k [] = Unit
  Numbered k (item ∷ items) =
      (marker_at paste item.0 ≡ some (ordered k item.1)) × Numbered (k + 1) items

  abbrev pub ItemsFit : Kind → List (Node × ℕ) → Type 0
  ItemsFit bullets items = Bulleted items
  ItemsFit numbers items = Numbered 1 items

  abbrev pub has_strong : Option Marker → Bool
  has_strong none = false
  has_strong (some m) = is_strong m

  -- The node does not start with a glyph that only ever means a bullet.
  abbrev pub IsWeak : Node → Type 0
  IsWeak node = has_strong (marker_at paste node) ≡ false

  abbrev nodes_of : Run paste → List Node
  nodes_of run = map (λ item. item.0) run.items

  -- A run: items of one kind, numbered from 1 on where they are numbered; each loses its own marker.
  pub record IsRun (run : Run paste) : Type 0 where
    pub fit : ItemsFit run.kind run.items
    pub length_fits : run.end_ + 1 ≡ run.start + length run.items
    pub next_fits : run.kind ≡ numbers → run.next ≡ length run.items + 1
    pub weak : run.strong ≡ false → All IsWeak (nodes_of run)

  -- The runs stand in the nodes, which start at index i, one after another; no other node is strong.
  abbrev pub Splits : ℕ → List Node → List (Run paste) → Type 0
  Splits i nodes [] = All IsWeak nodes
  Splits i nodes (run ∷ runs) =
      (before : List Node) × (after : List Node) × (nodes ≡ before ++ (nodes_of run ++ after))
      × (run.start ≡ i + length before)
      × All IsWeak before
      × IsRun run
      × Splits (run.end_ + 1) after runs

  Splits-before :
      (i : ℕ) (before nodes : List Node) (runs : List (Run paste))
      → All IsWeak before
      → Splits (i + length before) nodes runs
      → Splits i (before ++ nodes) runs
  Splits-before i before nodes [] w h = All-append IsWeak before nodes w h
  Splits-before i before nodes (run ∷ runs) w (b, after, e, at, w', is_run, rest) = (
    before ++ b,
    after,
    ap (λ l. before ++ l) e ∙ sym (append_assoc before b _),
    ground (arith, length-append before b),
    All-append IsWeak before b w w',
    is_run,
    rest,
  )

  Splits-keep :
      (p : Run paste → Bool)
      → ((run : Run paste) → p run ≡ false → run.strong ≡ false)
      → (i : ℕ) (nodes : List Node) (runs : List (Run paste)) → Splits i nodes runs
      → Splits i nodes (keep p runs)
  Splits-keep p weak i nodes [] h = h
  Splits-keep p weak i nodes (run ∷ runs) (before, after, e, at, w, is_run, rest) =
      let kept : Splits (run.end_ + 1) after (keep p runs) =
        Splits-keep p weak (run.end_ + 1) after runs rest in
      elim (Bool-cases (p run)) [
        | inl stays ↦ rw stays (before, after, e, at, w, is_run, kept)
        | inr drops ↦ rw drops (
            subst (λ l. Splits i l (keep p runs)) (append_assoc before (nodes_of run) after ∙ sym e)
              (Splits-before i (before ++ nodes_of run) after (keep p runs)
                (All-append IsWeak before (nodes_of run) w (is_run.weak (weak run drops)))
                (subst (λ k. Splits k after (keep p runs))
                  (ground (
                    arith,
                    is_run.length_fits,
                    length-append before (nodes_of run),
                    length-map (λ item. item.0) run.items,
                  ))
                  kept)))
      ]

  Bulleted-append : (xs ys : List (Node × ℕ)) → Bulleted xs → Bulleted ys → Bulleted (xs ++ ys)
  Bulleted-append [] ys h k = k
  Bulleted-append (x ∷ xs) ys (p, h) k = (p, Bulleted-append xs ys h k)

  Numbered-append :
      (k : ℕ) (xs ys : List (Node × ℕ))
      → Numbered k xs
      → Numbered (k + length xs) ys
      → Numbered k (xs ++ ys)
  Numbered-append k [] ys h g = subst (λ n. Numbered n ys) (omega arith) g
  Numbered-append k (x ∷ xs) ys (p, h) g =
      (p, Numbered-append (k + 1) xs ys h (subst (λ n. Numbered n ys) (omega arith) g))

  begin_run-IsRun :
      (i : ℕ) (node : Node) (kind : Kind) (m : Marker)
      → marker_at paste node ≡ some m
      → begins m ≡ some kind
      → IsRun (begin_run paste i node kind m)
  unfolding begin_run
  begin_run-IsRun i node bullets (bullet strong n) e b = record {
    fit = ((strong, e), tt);
    length_fits = refl;
    next_fits = λ _. refl;
    weak = λ s. (rw e s, tt);
  }
  begin_run-IsRun i node numbers (bullet strong n) e b = ground arith
  begin_run-IsRun i node bullets (ordered k n) e b = ground arith
  begin_run-IsRun i node numbers (ordered k n) e b = record {
    fit = (subst (λ j. marker_at paste node ≡ some (ordered j n)) (ground arith) e, tt);
    length_fits = refl;
    next_fits = λ _. refl;
    weak = λ s. (rw e s, tt);
  }

  started-from :
      (i : ℕ) (node : Node) (run : Run paste)
      → started paste i node ≡ some run
      → (kind : Kind) × (m : Marker) × (marker_at paste node ≡ some m)
        × (begins m ≡ some kind)
        × (begin_run paste i node kind m ≡ run)
  unfolding started
  started-from i node run e =
      let (m, marked, e') =
        chain-some (marker_at paste node)
          (λ m. elim (begins m) [ none ↦ none | some kind ↦ some (begin_run paste i node kind m) ])
          e in
      let (kind, fits, e'') =
        chain-some (begins m) (λ kind. some (begin_run paste i node kind m)) e' in
      (kind, m, marked, fits, ground (arith, e''))

  extend-fit :
      (kind : Kind) (items : List (Node × ℕ)) (node : Node) (m : Marker) (next : ℕ)
      → marker_at paste node ≡ some m
      → follows_on m kind next ≡ true
      → (kind ≡ numbers → next ≡ length items + 1)
      → ItemsFit kind items
      → ItemsFit kind (items ++ (node, marker_length m) ∷ [])
        × (kind ≡ numbers → next_after m next ≡ length (items ++ (node, marker_length m) ∷ []) + 1)
  extend-fit bullets items node (bullet strong n) next e f g h =
      (Bulleted-append items _ h ((strong, e), tt), ground arith)
  extend-fit bullets items node (ordered k n) next e f g h = ground arith
  extend-fit numbers items node (bullet strong n) next e f g h = ground arith
  extend-fit numbers items node (ordered k n) next e f g h = (
    Numbered-append 1 items _ h
        (subst (λ j. marker_at paste node ≡ some (ordered j n)) (ground (arith, f, g refl)) e, tt),
    λ _. ground (arith, length-append items ((node, n) ∷ []), g refl),
  )

  continued-from :
      (i : ℕ) (node : Node) (run longer : Run paste)
      → continued paste i node run ≡ some longer
      → (m : Marker) × (marker_at paste node ≡ some m)
        × (follows_on m run.kind run.next ≡ true)
        × (extend paste i node m run ≡ longer)
  unfolding continued
  continued-from i node run longer e =
      let (m, marked, e') =
        chain-some (marker_at paste node)
          (λ m. if follows_on m run.kind run.next then some (extend paste i node m run) else none)
          e in
      elim (Bool-cases (follows_on m run.kind run.next)) [
        | inl follows ↦ (m, marked, follows, ground (arith, e', follows))
        | inr other ↦ ground (arith, e', other)
      ]

  started-IsRun :
      (i : ℕ) (node : Node) (run : Run paste)
      → started paste i node ≡ some run
      → IsRun run × (run.start ≡ i) × (run.end_ ≡ i) × (nodes_of run ≡ node ∷ [])
  unfolding begin_run
  started-IsRun i node run e =
      let (kind, m, marked, fits, same) = started-from i node run e in
      (
        subst IsRun same (begin_run-IsRun i node kind m marked fits),
        ap (λ r. r.start) (sym same),
        ap (λ r. r.end_) (sym same),
        ap nodes_of (sym same),
      )

  extend-IsRun :
      (i : ℕ) (node : Node) (m : Marker) (run : Run paste)
      → run.end_ + 1 ≡ i
      → IsRun run
      → marker_at paste node ≡ some m
      → follows_on m run.kind run.next ≡ true
      → IsRun (extend paste i node m run)
  unfolding extend
  extend-IsRun i node m run at h marked follows =
      let (fit, next) =
        extend-fit run.kind run.items node m run.next marked follows h.next_fits h.fit in
      record {
        fit = fit;
        length_fits =
            ground (arith, h.length_fits, length-append run.items ((node, marker_length m) ∷ []));
        next_fits = next;
        weak = λ s. subst (All IsWeak) (sym (map-append (λ item. item.0) run.items _)) (
            All-append IsWeak (nodes_of run) (node ∷ []) (h.weak (ground (arith, s)))
              (rw marked (ground (arith, s)), tt));
      }

  continued-IsRun :
      (i : ℕ) (node : Node) (run longer : Run paste)
      → run.end_ + 1 ≡ i
      → IsRun run
      → continued paste i node run ≡ some longer
      → IsRun longer
        × (longer.start ≡ run.start)
        × (longer.end_ ≡ i)
        × (nodes_of longer ≡ nodes_of run ++ node ∷ [])
  unfolding extend
  continued-IsRun i node run longer at h e =
      let (m, marked, follows, same) = continued-from i node run longer e in
      (
        subst IsRun same (extend-IsRun i node m run at h marked follows),
        ap (λ r. r.start) (sym same),
        ap (λ r. r.end_) (sym same),
        ap nodes_of (sym same) ∙ map-append (λ item. item.0) run.items _,
      )

  started-IsWeak : (i : ℕ) (node : Node) → started paste i node ≡ none → IsWeak node
  unfolding started
  started-IsWeak i node e = elim (Option-cases (marker_at paste node)) [
    | inl unmarked ↦ rw unmarked refl
    | inr (bullet strong n, marked) ↦ ground (arith, rw (marked, started) at e)
    | inr (ordered k n, marked) ↦ rw marked refl
  ]

  runs_from-ends :
      (i : ℕ) (node : Node) (nodes : List Node) (run : Run paste)
      → continued paste i node run ≡ none
      → run ∷ runs_from paste (i + 1) (started paste i node) nodes
        ≡ runs_from paste i (some run) (node ∷ nodes)
  unfolding runs_from
  runs_from-ends i node nodes run e = rw (e, runs_from) refl

  runs_from-goes :
      (i : ℕ) (node : Node) (nodes : List Node) (run longer : Run paste)
      → continued paste i node run ≡ some longer
      → runs_from paste (i + 1) (some longer) nodes ≡ runs_from paste i (some run) (node ∷ nodes)
  unfolding runs_from
  runs_from-goes i node nodes run longer e = rw (e, runs_from) refl

  -- From the node with index i on: with no present run, and with one that ends just before.
  runs_from-Splits :
      (i : ℕ) (nodes : List Node)
      → Splits i nodes (runs_from paste i none nodes)
        × ((run : Run paste)
            → IsRun run
            → run.end_ + 1 ≡ i
            → Splits run.start (nodes_of run ++ nodes) (runs_from paste i (some run) nodes))
  unfolding runs_from
  runs_from-Splits i [] = (tt, λ run h at. ([], [], refl, omega arith, tt, h, tt))
  runs_from-Splits i (node ∷ nodes) =
      let (free, within) = runs_from-Splits (i + 1) nodes in
      let opened : Splits i (node ∷ nodes) (runs_from paste (i + 1) (started paste i node) nodes) =
        elim (Option-cases (started paste i node)) [
          | inl unmarked ↦
              rw unmarked
                (Splits-before i (node ∷ []) nodes _ (started-IsWeak i node unmarked, tt) free)
          | inr (run, e) ↦
              let (h, at, end, one) = started-IsRun i node run e in
              rw e (
                subst (λ l. Splits i (l ++ nodes) (runs_from paste (i + 1) (some run) nodes)) one
                  (subst
                    (λ k.
                      Splits k (nodes_of run ++ nodes) (runs_from paste (i + 1) (some run) nodes))
                    at (within run h (ground arith))))
        ] in
      (
        opened,
        λ run h at. elim (Option-cases (continued paste i node run)) [
          | inl ends ↦
              subst (λ rs. Splits run.start (nodes_of run ++ node ∷ nodes) rs)
                (runs_from-ends i node nodes run ends)
                (
                  [],
                  node ∷ nodes,
                  refl,
                  omega arith,
                  tt,
                  h,
                  subst
                      (λ k.
                        Splits k (node ∷ nodes)
                          (runs_from paste (i + 1) (started paste i node) nodes))
                      (sym at) opened,
                )
          | inr (longer, e) ↦
              let (h', at', end, more) = continued-IsRun i node run longer at h e in
              subst (λ rs. Splits run.start (nodes_of run ++ node ∷ nodes) rs)
                (runs_from-goes i node nodes run longer e)
                (subst (λ l. Splits run.start l (runs_from paste (i + 1) (some longer) nodes))
                  (ap (λ l. l ++ nodes) more ∙ append_assoc (nodes_of run) (node ∷ []) nodes)
                  (subst
                    (λ k.
                      Splits k (nodes_of longer ++ nodes)
                        (runs_from paste (i + 1) (some longer) nodes))
                    at' (within longer h' (ground arith))))
        ],
      )

  -- The runs stand one after another in the nodes; each has a marker that fits in each of its
  -- paragraphs, all of one kind and numbered from 1 on where they are numbered, and has two items or
  -- more, or a strong bullet. A node that starts with a glyph that fits is in one of them.
  pub list_runs-Splits :
      (nodes : List Node)
      → Splits 0 nodes (list_runs paste nodes)
        × All (λ run. counts paste run ≡ true) (list_runs paste nodes)
  unfolding list_runs
  list_runs-Splits nodes = (
    Splits-keep (counts paste) (λ run e. ground (arith, e)) 0 nodes (runs_from paste 0 none nodes)
        (runs_from-Splits 0 nodes).0,
    All-keep_test (counts paste) (runs_from paste 0 none nodes),
  )
