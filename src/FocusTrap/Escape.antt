-- ===== src/FocusTrap/Escape.antt =====
-- Which dialog a press of Escape closes.
use kiln_cms.Prelude.{
  Bool, true, false, ◌||◌, ◌≡◌, refl, subst, ◌⊎◌, inl, inr, none, some, List, [], ◌∷◌, keep, any,
  All, All-mono, All-keep_test, All-of_keep, sym, Bool-cases, Option-cases, List-cases, arith,
}
use kiln_cms.FocusTrap.{
  Dom, Trap, deeper, deepest_from, innermost, is_trap, on_document, document_phase, panel_phase,
  escape,
}

module _ (dom : Dom) where
  open dom use {Element, contains, follows, contains_refl, tree_total, tree_trans, tree_antisymm}

  -- In tree order the one trap stands before the other, or is it.
  abbrev Before : Trap dom → Trap dom → Type 0
  Before s t = (contains s.el t.el || follows s.el t.el) ≡ true

  deeper-Before :
      (d t : Trap dom) → (r : Trap dom) × (deeper dom (some d) t ≡ some r) × Before d r × Before t r
  unfolding deeper
  deeper-Before d t = elim (Bool-cases (contains d.el t.el)) [
    | inl inside ↦ (t, ground arith, ground arith, ground (arith, contains_refl t.el))
    | inr apart ↦ elim (Bool-cases (contains t.el d.el)) [
      | inl around ↦ (d, ground arith, ground (arith, contains_refl d.el), ground arith)
      | inr beside ↦ elim (Bool-cases (follows d.el t.el)) [
        | inl later ↦ (t, ground arith, ground arith, ground (arith, contains_refl t.el))
        | inr earlier ↦ (
          d,
          ground arith,
          ground (arith, contains_refl d.el),
          ground (arith, tree_total d.el t.el),
        )
      ]
    ]
  ]

  deeper-either :
      (P : Trap dom → Type 0) (d t r : Trap dom) → deeper dom (some d) t ≡ some r → P d → P t → P r
  unfolding deeper
  deeper-either P d t r e p q = elim (Bool-cases (contains d.el t.el)) [
    | inl inside ↦ subst P (ground arith) q
    | inr apart ↦ elim (Bool-cases (contains t.el d.el)) [
      | inl around ↦ subst P (ground arith) p
      | inr beside ↦ elim (Bool-cases (follows d.el t.el)) [
        | inl later ↦ subst P (ground arith) q
        | inr earlier ↦ subst P (ground arith) p
      ]
    ]
  ]

  deepest_last :
      (P : Trap dom → Type 0) (d : Trap dom) (ts : List (Trap dom))
      → P d
      → All P ts
      → (r : Trap dom) × (deepest_from dom (some d) ts ≡ some r)
        × P r
        × Before d r
        × All (λ t. Before t r) ts
  unfolding deepest_from
  deepest_last P d [] p h = (d, refl, p, ground (arith, contains_refl d.el), tt)
  deepest_last P d (t ∷ ts) p (q, h) =
      let (x, e, dx, tx) = deeper-Before d t in
      let (r, e', pr, xr, later) = deepest_last P x ts (deeper-either P d t x e p q) h in
      (r, rw e e', pr, tree_trans d.el x.el r.el dx xr, (tree_trans t.el x.el r.el tx xr, later))

  -- The last of the open dialogs in tree order; so none of them lies inside it.
  pub record IsInnermost (traps : List (Trap dom)) (r : Trap dom) : Type 0 where
    pub open_itself : r.connected ≡ true
    pub last : All (λ t. t.connected ≡ true → Before t r) traps
    pub none_inside : All (λ t. t.connected ≡ true → contains r.el t.el ≡ true → t.el ≡ r.el) traps

  -- The dialog that `innermost` answers with is open and the last of the open dialogs in tree order,
  -- and no other open dialog lies inside it.
  innermost-IsInnermost :
      (traps : List (Trap dom)) {r : Trap dom} → innermost dom traps ≡ some r → IsInnermost traps r
  unfolding innermost
  innermost-IsInnermost traps {r} e = elim (List-cases (keep (λ t. t.connected) traps)) [
    | inl none_open ↦ cc (rw (none_open, deepest_from) at e)
    | inr (d, ts, opened) ↦
        let on : All (λ t. t.connected ≡ true) (d ∷ ts) =
          subst (All (λ t. t.connected ≡ true)) opened (All-keep_test (λ t. t.connected) traps) in
        let (x, e', px, dx, later) = deepest_last (λ t. t.connected ≡ true) d ts on.0 on.1 in
        let e'' : deepest_from dom none (d ∷ ts) ≡ some r =
          subst (λ l. deepest_from dom none l ≡ some r) opened e in
        let same : x ≡ r = cc in
        let last : All (λ t. t.connected ≡ true → Before t r) traps =
          All-of_keep (λ t. Before t r) (λ t. t.connected) traps
            (subst (All (λ t. Before t r)) (sym opened)
              (subst (λ y. All (λ t. Before t y) (d ∷ ts)) same (dx, later))) in
        record {
          open_itself = subst (λ t. t.connected ≡ true) same px;
          last = last;
          none_inside =
              All-mono _ (λ t. t.connected ≡ true → contains r.el t.el ≡ true → t.el ≡ r.el)
                (λ t h on inside. tree_antisymm t.el r.el (h on) (ground arith)) traps last;
        }
  ]

  document_phase_prevented :
      (traps : List (Trap dom)) (active : Element) (ts : List (Trap dom))
      → document_phase dom traps active true ts ≡ []
  unfolding document_phase on_document
  document_phase_prevented traps active [] = refl
  document_phase_prevented traps active (t ∷ ts) = document_phase_prevented traps active ts

  -- Why a press closes a dialog through its listener on the document.
  pub record IsCalled (traps : List (Trap dom)) (active : Element) (prevented : Bool) (t : Trap dom)
      : Type 0 where
    pub unhandled : prevented ≡ false
    pub chosen : is_trap dom (innermost dom traps) t ≡ true
    pub focus_out : any (λ s. contains s.el active) traps ≡ false
    pub wants : t.closes ≡ true

  on_document-IsCalled :
      (traps : List (Trap dom)) (active : Element) (prevented : Bool) (t : Trap dom)
      → on_document dom traps active prevented t ≡ true
      → IsCalled traps active prevented t
  unfolding on_document
  on_document-IsCalled traps active prevented t e = ground arith

  -- The dialogs that close: none, or one for the given reason.
  abbrev pub AtMostOne : (Trap dom → Type 0) → List (Trap dom) → Type 0
  AtMostOne P [] = Unit
  AtMostOne P (t ∷ []) = P t
  AtMostOne P (_ ∷ _ ∷ _) = ⊥

  document_phase_once :
      (traps : List (Trap dom)) (active : Element) (prevented : Bool) (ts : List (Trap dom))
      → AtMostOne (IsCalled traps active prevented) (document_phase dom traps active prevented ts)
  unfolding document_phase
  document_phase_once traps active prevented [] = tt
  document_phase_once traps active prevented (t ∷ ts) =
      elim (Bool-cases (on_document dom traps active prevented t)) [
        | inl acts ↦ rw acts (
            rw (document_phase_prevented traps active ts)
              (on_document-IsCalled traps active prevented t acts))
        | inr passes ↦ rw passes (document_phase_once traps active prevented ts)
      ]

  AtMostOne-mono :
      (P Q : Trap dom → Type 0)
      → ((t : Trap dom) → P t → Q t)
      → (ts : List (Trap dom)) → AtMostOne P ts
      → AtMostOne Q ts
  AtMostOne-mono P Q imp [] h = tt
  AtMostOne-mono P Q imp (t ∷ []) h = imp t h
  AtMostOne-mono P Q imp (_ ∷ _ ∷ _) h = h

  -- One press of Escape closes at most one dialog, however many are open: the first panel on the
  -- press's way up that wants to close; or, where none of those does, the innermost dialog, and
  -- that only if the focus is in no dialog and nothing else has handled the press.
  pub escape-AtMostOne :
      (traps path : List (Trap dom)) (active : Element) (prevented : Bool)
      → AtMostOne
          (λ t.
            (panel_phase dom path ≡ some t)
            ⊎ ((panel_phase dom path ≡ none) × IsCalled traps active prevented t))
          (escape dom traps path active prevented)
  unfolding escape
  escape-AtMostOne traps path active prevented = elim (Option-cases (panel_phase dom path)) [
    | inl none_wants ↦
        rw (none_wants, escape)
          (AtMostOne-mono (IsCalled traps active prevented) _ (λ t c. inr (refl, c)) _
            (document_phase_once traps active prevented traps))
    | inr (t, wants) ↦ rw (wants, escape) (inl refl)
  ]
