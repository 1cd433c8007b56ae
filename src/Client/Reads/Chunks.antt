-- ===== src/Client/Reads/Chunks.antt =====
-- The chunks of a list of ids.
use kiln_cms.Prelude.{
  ℕ, zero, suc, ◌≤◌, ◌≡◌, refl, ap, ◌∙◌, List, [], ◌∷◌, ◌++◌, length, take, drop, take-append-drop,
  Text, All, arith,
}
use kiln_cms.Client.Reads.{chunks_from, chunks}

-- The lists, one after another.
abbrev pub flat {ℓ} : {A : Type ℓ} → List (List A) → List A
flat [] = []
flat (x ∷ xs) = x ++ flat xs

length-take-le {ℓ} : {A : Type ℓ} (n : ℕ) (xs : List A) → length (take n xs) ≤ n
length-take-le zero xs = omega arith
length-take-le (suc n) [] = omega arith
length-take-le (suc n) (x ∷ xs) = omega (arith, length-take-le n xs)

length-drop-le {ℓ} : {A : Type ℓ} (n : ℕ) (xs : List A) → length (drop n xs) ≤ length xs
length-drop-le zero xs = omega arith
length-drop-le (suc n) [] = omega arith
length-drop-le (suc n) (x ∷ xs) = omega (arith, length-drop-le n xs)

flat-chunks_from : (f : ℕ) (ids : List Text) → length ids ≤ f → flat (chunks_from f ids) ≡ ids
unfolding chunks_from
flat-chunks_from zero [] h = refl
flat-chunks_from zero (id ∷ ids) h = absurd (omega (arith, h))
flat-chunks_from (suc f) [] h = refl
flat-chunks_from (suc f) (id ∷ ids) h =
    ap (λ rest. (id ∷ take 99 ids) ++ rest)
      (flat-chunks_from f (drop 99 ids) (omega (arith, h, length-drop-le 99 ids)))
    ∙ take-append-drop 100 (id ∷ ids)

-- A chunk can be asked for: it has an id, and no more than the server answers with.
abbrev pub IsChunk : List Text → Type 0
IsChunk chunk = (1 ≤ length chunk) × (length chunk ≤ 100)

chunks_from-IsChunk : (f : ℕ) (ids : List Text) → All IsChunk (chunks_from f ids)
unfolding chunks_from
chunks_from-IsChunk zero ids = tt
chunks_from-IsChunk (suc f) [] = tt
chunks_from-IsChunk (suc f) (id ∷ ids) =
    ((omega arith, omega (arith, length-take-le 99 ids)), chunks_from-IsChunk f (drop 99 ids))

-- A list of ids, however long, is cut into chunks of one to a hundred ids; one after another they are
-- the list again, so that no id is left out, asked for twice or moved.
pub chunks-IsChunk : (ids : List Text) → All IsChunk (chunks ids) × (flat (chunks ids) ≡ ids)
unfolding chunks
chunks-IsChunk ids =
    (chunks_from-IsChunk (length ids) ids, flat-chunks_from (length ids) ids (omega arith))
