-- ===== src/Client/Reads/Batch.antt =====
-- What `byIds` finds.
use kiln_cms.Prelude.{
  ◌≡◌, ◌⊎◌, inl, inr, refl, sym, ap, subst, ◌∙◌, Bool, true, Option, none, some, List, [], ◌∷◌,
  ◌++◌, Text, text_eq, text_eq_iff, ok, Bool-cases, Option-cases, is_some, All, All-append,
  All-mono, any, ◌||◌, arith,
}
use kiln_cms.Json.{Json, lookup, assign}
use kiln_cms.Json.Entries.{lookup-assign}
use kiln_cms.JsonApi.{
  Item, ListResult, ListOptions, flatten_document, as_document, list_params, filter_map,
}
use kiln_cms.JsonApi.Included.{filter_map-ext}
use kiln_cms.Client.{KilnClient, Platform, Request, json_api, after, return, Call}
use kiln_cms.Client.Sending.{IsAnswered, get_request, request-answered}
use kiln_cms.Client.Reads.{
  get_method, list_path, chunks, chunk_options, index_from, all_items, picked, settle, all_calls,
  list, by_ids,
}
use kiln_cms.Client.Reads.Chunks.{IsChunk, flat, chunks-IsChunk}

-- The records of a server, by id.
abbrev pub Records : Type 0
Records = Text → Option Item

-- Whether an item with this id is among the items.
abbrev pub holds : Text → List Item → Bool
holds id is = any (λ (i : Item). text_eq i.id id) is

-- An answer to a read of some ids: it has nothing that is no record, and every record that was asked for.
abbrev pub IsAnswer : Records → List Text → List Item → Type 0
IsAnswer records ids is =
    All (λ (i : Item). records i.id ≡ some i) is
    × All (λ id. (records id ≡ none) ⊎ (holds id is ≡ true)) ids

-- Only records are stored, each under its id.
abbrev IsIndex : Records → List (Text × Item) → Type 0
IsIndex records m = (id : Text) (i : Item) → lookup id m ≡ some i → records id ≡ some i

assign-IsIndex :
    (records : Records) (m : List (Text × Item)) (i : Item)
    → records i.id ≡ some i
    → IsIndex records m
    → IsIndex records (assign i.id i m)
assign-IsIndex records m i known index id j e = elim (Bool-cases (text_eq i.id id)) [
  | inl same ↦
      ap records (sym ((text_eq_iff i.id id).0 same))
      ∙ (known ∙ (sym (rw same at (lookup-assign id i.id i m)) ∙ e))
  | inr other ↦ index id j (sym (rw other at (lookup-assign id i.id i m)) ∙ e)
]

index_from-IsIndex :
    (records : Records) (is : List Item) (m : List (Text × Item))
    → All (λ (i : Item). records i.id ≡ some i) is
    → IsIndex records m
    → IsIndex records (index_from is m)
unfolding index_from
index_from-IsIndex records [] m h index = index
index_from-IsIndex records (i ∷ is) m (known, h) index =
    index_from-IsIndex records is (assign i.id i m) h (assign-IsIndex records m i known index)

-- What is stored stays stored, or is stored again.
assign-is_some :
    (id : Text) (m : List (Text × Item)) (i : Item)
    → (text_eq i.id id || is_some (lookup id m)) ≡ true
    → is_some (lookup id (assign i.id i m)) ≡ true
assign-is_some id m i e = elim (Bool-cases (text_eq i.id id)) [
  | inl same ↦ ap is_some (rw same at (lookup-assign id i.id i m))
  | inr other ↦ ap is_some (rw other at (lookup-assign id i.id i m)) ∙ (rw other at e)
]

index_from-is_some :
    (id : Text) (is : List Item) (m : List (Text × Item))
    → (holds id is || is_some (lookup id m)) ≡ true
    → is_some (lookup id (index_from is m)) ≡ true
unfolding index_from
index_from-is_some id [] m e = e
index_from-is_some id (i ∷ is) m e =
    index_from-is_some id is (assign i.id i m) (elim (Bool-cases (holds id is)) [
      | inl there ↦ rw there refl
      | inr away ↦ rw away (assign-is_some id m i (ground (arith, away, e)))
    ])

-- An id is found in the index just as the server has it.
index_from-lookup :
    (records : Records) (is : List Item) (id : Text)
    → All (λ (i : Item). records i.id ≡ some i) is
    → (records id ≡ none) ⊎ (holds id is ≡ true)
    → lookup id (index_from is []) ≡ records id
index_from-lookup records is id known (inl missing) =
    elim (Option-cases (lookup id (index_from is []))) [
      | inl absent ↦ absent ∙ sym missing
      | inr (i, e) ↦
          e
          ∙ sym
              (index_from-IsIndex records is [] known (λ k j e. absurd (ground (arith, e))) id i e)
    ]
index_from-lookup records is id known (inr there) =
    elim (Option-cases (lookup id (index_from is []))) [
      | inl absent ↦ absurd (
          ground
            (arith, sym (ap is_some absent) ∙ index_from-is_some id is [] (ground (arith, there))))
      | inr (i, e) ↦
          e
          ∙ sym
              (index_from-IsIndex records is [] known (λ k j e. absurd (ground (arith, e))) id i e)
    ]

holds-append-left :
    (id : Text) (is js : List Item) → holds id is ≡ true → holds id (is ++ js) ≡ true
holds-append-left id [] js e = ground (arith, e)
holds-append-left id (i ∷ is) js e = elim (Bool-cases (text_eq i.id id)) [
  | inl same ↦ rw same refl
  | inr other ↦ rw other (holds-append-left id is js (rw other at e))
]

holds-append-right :
    (id : Text) (is js : List Item) → holds id js ≡ true → holds id (is ++ js) ≡ true
holds-append-right id [] js e = e
holds-append-right id (i ∷ is) js e = rw (holds-append-right id is js e) (ground arith)

IsAnswer-append :
    (records : Records) (xs ys : List Text) (is js : List Item)
    → IsAnswer records xs is
    → IsAnswer records ys js
    → IsAnswer records (xs ++ ys) (is ++ js)
IsAnswer-append records xs ys is js (known, found) (known_, found_) = (
  All-append (λ (i : Item). records i.id ≡ some i) is js known known_,
  All-append (λ id. (records id ≡ none) ⊎ (holds id (is ++ js) ≡ true)) xs ys
      (All-mono _ _ (λ id h. elim h [ inl e ↦ inl e | inr e ↦ inr (holds-append-left id is js e) ])
        xs found)
      (All-mono _ _ (λ id h. elim h [ inl e ↦ inl e | inr e ↦ inr (holds-append-right id is js e) ])
        ys found_),
)

module _ {S : Type 0} (platform : Platform S) (client : KilnClient) (plural : Text)
    (options : ListOptions) (records : Records) where
  abbrev chunk_request : List Text → S → Request
  chunk_request chunk s =
      get_request platform client get_method (list_path plural options.published)
        (list_params (chunk_options options chunk)) options.signal json_api s

  -- A server of these records: it answers a read of up to a hundred ids, whenever it comes.
  abbrev pub IsServer : Type 0
  IsServer =
      (s : S) (chunk : List Text)
      → IsChunk chunk
      → (t : S) × (j : Json) × IsAnswered platform (chunk_request chunk s) s t j
        × IsAnswer records chunk (flatten_document (as_document j)).items

  module _ (server : IsServer) where
    list-answered :
        (s t : S) (chunk : List Text) (j : Json)
        → IsAnswered platform (chunk_request chunk s) s t j
        → list platform client plural (chunk_options options chunk) s
          ≡ (t, ok (flatten_document (as_document j)))
    unfolding list chunk_options
    list-answered s t chunk j answered =
        ap (λ r. after r (λ doc. return (flatten_document (as_document doc))))
          (request-answered platform client _ _ _ _ _ s t j answered)

    abbrev read_chunk : List Text → Call S ListResult
    read_chunk chunk = list platform client plural (chunk_options options chunk)

    all_calls-IsAnswer :
        (cs : List (List Text)) (s : S)
        → All IsChunk cs
        → (t : S) × (results : List ListResult) × (all_calls read_chunk cs s ≡ (t, ok results))
          × IsAnswer records (flat cs) (all_items results)
    all_calls-IsAnswer [] s h = (s, [], refl, (tt, tt))
    all_calls-IsAnswer (c ∷ cs) s (fits, h) =
        let (t, j, answered, right) = server s c fits in
        let (u, results, called, rights) = all_calls-IsAnswer cs t h in
        (
          u,
          flatten_document (as_document j) ∷ results,
          ap (λ r. settle r (all_calls read_chunk cs)) (list-answered s t c j answered)
              ∙ ap (λ r. after r (λ more. return (flatten_document (as_document j) ∷ more))) called,
          IsAnswer-append records c (flat cs) _ (all_items results) right rights,
        )

    picked-records :
        (ids : List Text) (results : List ListResult)
        → IsAnswer records ids (all_items results)
        → picked ids results ≡ filter_map records ids
    unfolding picked
    picked-records ids results (known, found) =
        filter_map-ext _ _ ids (
          All-mono _ _ (λ id h. index_from-lookup records (all_items results) id known h) ids found)

    -- A server answers a read of up to a hundred ids, in any order and with other records too if it
    -- likes. Then `byIds` gives for a list of ids, however long and with whatever repetitions, just what
    -- looking up each id in the server's records gives: the record of each id that has one, in the order
    -- of the ids.
    pub by_ids-records :
        (ids : List Text) (s : S)
        → (t : S) × (by_ids platform client plural ids options s ≡ (t, ok (filter_map records ids)))
    unfolding by_ids
    by_ids-records [] s = (s, refl)
    by_ids-records (id ∷ ids) s =
        let (fits, whole) = chunks-IsChunk (id ∷ ids) in
        let (t, results, called, right) = all_calls-IsAnswer (chunks (id ∷ ids)) s fits in
        (
          t,
          ap (λ r. after r (λ results. return (picked (id ∷ ids) results))) called
              ∙ ap (λ l. (t, ok l))
                  (picked-records (id ∷ ids) results
                    (subst (λ xs. IsAnswer records xs (all_items results)) whole right)),
        )
