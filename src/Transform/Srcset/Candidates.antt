-- ===== src/Transform/Srcset/Candidates.antt =====
-- The candidates of a `srcset`.
use kiln_cms.Prelude.{
  ℕ, min, ◌≤◌, ◌<◌, ◌≡◌, ◌⊎◌, inl, inr, refl, sym, subst, true, false, List, [], ◌∷◌, map, any, All,
  All-mono, All-both, All-map, All-Has, All-of_sort, Has, IsIncreasing, sort, Bool-cases, ◌==◌,
  arith,
}
use kiln_cms.Transform.Srcset.{SrcsetCandidate, unique, candidates, pick}
use kiln_cms.Transform.Srcset.Unique.{unique-Distinct, sort-IsIncreasing, All-of_unique, Has-asked}

any-Has : (d : ℕ) (seen : List ℕ) → Has d seen → any (λ s. s == d) seen ≡ true
any-Has d [] m = absurd m
any-Has d (s ∷ ss) (inl e) = ground arith
any-Has d (s ∷ ss) (inr m) = ground (arith, any-Has d ss m)

seen_later :
    {R : Type 0} (d e : ℕ) (seen : List ℕ)
    → (any (λ s. s == d) (e ∷ seen) ≡ true) ⊎ R
    → (any (λ s. s == d) seen ≡ true) ⊎ ((d ≡ e) ⊎ R)
seen_later d e seen (inr r) = inr (inr r)
seen_later d e seen (inl m) = elim (Bool-cases (e == d)) [
  | inl same ↦ inr (inl (ground arith))
  | inr differ ↦ inl (rw differ at m)
]

seen_apart :
    (d e : ℕ) (seen : List ℕ)
    → d ≡ e
    → any (λ s. s == d) seen ≡ true
    → any (λ s. s == e) seen ≡ false
    → ⊥
seen_apart d e seen q old new =
    let seen_too : any (λ s. s == e) seen ≡ true =
      subst (λ x. any (λ s. s == x) seen ≡ true) q old in
    cc

module _ (widest : ℕ) where
  -- The width that a candidate of that width is described by.
  abbrev drawn : ℕ → ℕ
  drawn w = min w widest

  -- A candidate comes from a width asked for, and its description was not seen before.
  candidates_sound :
      (seen ws : List ℕ)
      → All
          (λ c.
            Has c.width ws
            × (c.described ≡ drawn c.width)
            × (any (λ s. s == c.described) seen ≡ false))
          (candidates widest seen ws)
  unfolding candidates
  candidates_sound seen [] = tt
  candidates_sound seen (w ∷ ws) = elim (Bool-cases (any (λ s. s == drawn w) seen)) [
    | inl old ↦ rw old (All-mono _ _ (λ c (m, e, n). (inr m, e, n)) _ (candidates_sound seen ws))
    | inr new ↦ rw new (
      (inl refl, refl, new),
      All-mono _ _ (λ c (m, e, n). (inr m, e, ground arith)) _
          (candidates_sound (drawn w ∷ seen) ws),
    )
  ]

  candidates_old :
      (seen ws : List ℕ) (w : ℕ)
      → any (λ s. s == drawn w) seen ≡ true
      → candidates widest seen (w ∷ ws) ≡ candidates widest seen ws
  unfolding candidates
  candidates_old seen ws w old = rw old refl

  candidates_new :
      (seen ws : List ℕ) (w : ℕ)
      → any (λ s. s == drawn w) seen ≡ false
      → candidates widest seen (w ∷ ws)
        ≡ record { width = w; described = drawn w } ∷ candidates widest (drawn w ∷ seen) ws
  unfolding candidates
  candidates_new seen ws w new = rw new refl

  -- A candidate is described as the width is drawn, or that was seen before.
  abbrev IsDrawn : List ℕ → List SrcsetCandidate → ℕ → Type 0
  IsDrawn seen cs w =
      (any (λ s. s == drawn w) seen ≡ true) ⊎ Has (drawn w) (map (λ c. c.described) cs)

  candidates_complete : (seen ws : List ℕ) → All (IsDrawn seen (candidates widest seen ws)) ws
  candidates_complete seen [] = tt
  candidates_complete seen (w ∷ ws) = elim (Bool-cases (any (λ s. s == drawn w) seen)) [
    | inl old ↦
        subst (λ cs. All (IsDrawn seen cs) (w ∷ ws)) (sym (candidates_old seen ws w old))
          (inl old, candidates_complete seen ws)
    | inr new ↦
        subst (λ cs. All (IsDrawn seen cs) (w ∷ ws)) (sym (candidates_new seen ws w new))
          (
            inr (inl refl),
            All-mono _ _ (λ w' m. seen_later (drawn w') (drawn w) seen m) ws
                (candidates_complete (drawn w ∷ seen) ws),
          )
  ]

  candidates-IsIncreasing :
      (seen ws : List ℕ)
      → IsIncreasing ws
      → IsIncreasing (map (λ c. c.described) (candidates widest seen ws))
  unfolding candidates
  candidates-IsIncreasing seen [] h = tt
  candidates-IsIncreasing seen (w ∷ ws) (p, h) = elim (Bool-cases (any (λ s. s == drawn w) seen)) [
    | inl old ↦ rw old (candidates-IsIncreasing seen ws h)
    | inr new ↦ rw new (
      All-map (λ y. drawn w < y) (λ c. c.described) _
          (All-mono _ (λ c. drawn w < c.described)
            (λ c (m, e, n). let lt = All-Has (λ z. w < z) c.width ws p m in ground arith)
            (candidates widest (drawn w ∷ seen) ws) (candidates_sound (drawn w ∷ seen) ws)),
      candidates-IsIncreasing (drawn w ∷ seen) ws h,
    )
  ]

  -- The candidate is the narrowest of the widths that are drawn as it is.
  abbrev IsFirst : List ℕ → SrcsetCandidate → Type 0
  IsFirst ws c = All (λ w. drawn w ≡ c.described → c.width ≤ w) ws

  candidates-IsFirst :
      (seen ws : List ℕ) → IsIncreasing ws → All (IsFirst ws) (candidates widest seen ws)
  unfolding candidates
  candidates-IsFirst seen [] h = tt
  candidates-IsFirst seen (w ∷ ws) (p, h) = elim (Bool-cases (any (λ s. s == drawn w) seen)) [
    | inl old ↦ rw old (
        All-mono _ (IsFirst (w ∷ ws))
          (λ c ((m, e, n), k). (λ q. absurd (seen_apart (drawn w) c.described seen q old n), k))
          (candidates widest seen ws)
          (All-both _ (IsFirst ws) _ (candidates_sound seen ws) (candidates-IsFirst seen ws h)))
    | inr new ↦ rw new (
      (λ q. omega arith, All-mono (λ y. w < y) _ (λ y lt q. omega arith) ws p),
      All-mono _ (IsFirst (w ∷ ws)) (λ c ((m, e, n), k). (λ q. ground arith, k))
          (candidates widest (drawn w ∷ seen) ws)
          (All-both _ (IsFirst ws) _ (candidates_sound (drawn w ∷ seen) ws)
            (candidates-IsFirst (drawn w ∷ seen) ws h)),
    )
  ]

unseen : {R : Type 0} → (false ≡ true) ⊎ R → R
unseen (inl e) = cc
unseen (inr r) = r

-- What a `srcset` for the widths asked for promises.
pub record IsSrcset (widest : ℕ) (asked : List ℕ) (cs : List SrcsetCandidate) : Type 0 where
  pub sound : All (λ c. Has c.width asked × (c.described ≡ min c.width widest)) cs
  pub complete : All (λ w. Has (min w widest) (map (λ c. c.described) cs)) asked
  pub ascending : IsIncreasing (map (λ c. c.described) cs)
  pub first : All (λ c. All (λ w. min w widest ≡ c.described → c.width ≤ w) asked) cs

-- For whatever widths are asked for, in any order and repeated or not: each candidate has one of
-- these widths, and is described by the width it can really render at; each width asked for is
-- served by a candidate of that description; the descriptions are strictly ascending; and of the
-- widths that would render alike the least is kept.
pub pick-IsSrcset : (widest : ℕ) (asked : List ℕ) → IsSrcset widest asked (pick widest asked)
unfolding pick
pick-IsSrcset widest asked =
    let sorted = sort (unique asked) in
    let up : IsIncreasing sorted = sort-IsIncreasing (unique asked) (unique-Distinct asked) in
    let back = λ (P : ℕ → Type 0) (h : All P sorted).
      All-of_unique P asked (All-of_sort P (unique asked) h) in
    record {
      sound =
          All-mono _ _ (λ c (m, e, _). (Has-asked c.width asked m, e)) (candidates widest [] sorted)
            (candidates_sound widest [] sorted);
      complete =
          All-mono _ _ (λ w m. unseen m) asked
            (back (IsDrawn widest [] (candidates widest [] sorted))
              (candidates_complete widest [] sorted));
      ascending = candidates-IsIncreasing widest [] sorted up;
      first =
          All-mono (IsFirst widest sorted) _ (λ c h. back _ h) (candidates widest [] sorted)
            (candidates-IsFirst widest [] sorted up);
    }
