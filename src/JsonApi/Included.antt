-- ===== src/JsonApi/Included.antt =====
-- What came along with a document, looked up by type and id.
use kiln_cms.Prelude.{
  Bool, ◌≡◌, refl, ap, ap₂, ◌∙◌, ◌&&◌, Option, none, some, or_else, List, [], ◌∷◌, Text, text_eq,
  Without, if◌then◌else◌, All, All-mono, Option-cases, inl, inr, Result, ok, err, arith,
}
use kiln_cms.Json.{lookup, assign}
use kiln_cms.Json.Entries.{lookup-assign}
use kiln_cms.Errors.{TypeError, not_a_function}
use kiln_cms.JsonApi.{
  ResourceRef, RawResource, RawDocument, many, flatten_document, Item, ref_key, filter_map,
  with_some, flatten_resource, include_from, rel, resolve,
}

-- Whether an item is the one that a reference names.
unfoldable pub is_named : ResourceRef → Item → Bool
is_named r i = text_eq i.type_ r.type_ && text_eq i.id r.id

-- The last of the resources that a reference names, flattened; without one, what was found before.
unfoldable pub find_last : ResourceRef → List RawResource → Option Item → Option Item
find_last r [] found = found
find_last r (x ∷ xs) found =
    find_last r xs (if is_named r (flatten_resource x) then some (flatten_resource x) else found)

-- Two keys are one just when the types and the ids are.
ref_key-eq :
    (t u i j : Text)
    → Without b':' t
    → Without b':' u
    → text_eq (ref_key t i) (ref_key u j) ≡ (text_eq t u && text_eq i j)
unfolding ref_key
ref_key-eq [] [] i j ht hu = refl
ref_key-eq [] (d ∷ u) i j ht (differ, hu) = ground arith
ref_key-eq (c ∷ t) [] i j (differ, ht) hu = ground arith
ref_key-eq (c ∷ t) (d ∷ u) i j (_, ht) (_, hu) = ground (arith, ref_key-eq t u i j ht hu)

-- A type's name has no colon.
abbrev pub IsTyped : RawResource → Type 0
IsTyped x = Without b':' (flatten_resource x).type_

include_from-lookup :
    (r : ResourceRef)
    → Without b':' r.type_
    → (rs : List RawResource) (acc : List (Text × Item)) → All IsTyped rs
    → lookup (ref_key r.type_ r.id) (include_from rs acc)
      ≡ find_last r rs (lookup (ref_key r.type_ r.id) acc)
unfolding include_from find_last is_named
include_from-lookup r typed [] acc h = refl
include_from-lookup r typed (x ∷ xs) acc (p, h) =
    let flat : Item = flatten_resource x in
    include_from-lookup r typed xs (assign (ref_key flat.type_ flat.id) flat acc) h
    ∙ ap (find_last r xs) (
        lookup-assign (ref_key r.type_ r.id) (ref_key flat.type_ flat.id) flat acc
        ∙ ap (λ b. if b then some flat else lookup (ref_key r.type_ r.id) acc)
            (ref_key-eq flat.type_ r.type_ flat.id r.id p typed))

pub filter_map-ext {ℓ κ} :
    {A : Type ℓ} {B : Type κ} (f g : A → Option B) (xs : List A)
    → All (λ x. f x ≡ g x) xs
    → filter_map f xs ≡ filter_map g xs
filter_map-ext f g [] h = refl
filter_map-ext f g (x ∷ xs) (p, h) = ap₂ with_some p (filter_map-ext f g xs h)

flatten_document-included :
    (doc : RawDocument) (rs : List RawResource)
    → doc.content ≡ many rs
    → (flatten_document doc).included ≡ include_from (or_else doc.included []) []
unfolding flatten_document
flatten_document-included doc rs e = rw (e, flatten_document) refl

-- What the references name in what came along, or the throw where there is no list of references.
abbrev pub found_by : Option (List ResourceRef) → RawDocument → Result TypeError (List Item)
found_by none doc = err not_a_function
found_by (some refs) doc =
    ok (filter_map (λ (r : ResourceRef). find_last r (or_else doc.included []) none) refs)

-- Where no type's name has a colon, a relationship is resolved in what came along with a list of
-- resources to the very resources that its references name by type and id, in their order: of several
-- that one reference names, the last; and for a reference that names none, nothing. It throws where
-- the relationship's name has no entry and is one that every object inherits.
pub resolve-find_last :
    (doc : RawDocument) (rs : List RawResource) (i : Item) (name : Text)
    → doc.content ≡ many rs
    → All IsTyped (or_else doc.included [])
    → All (λ (r : ResourceRef). Without b':' r.type_) (or_else (rel i name) [])
    → resolve i name (flatten_document doc).included ≡ found_by (rel i name) doc
unfolding resolve
resolve-find_last doc rs i name listed typed named =
    ap (λ included. resolve i name included) (flatten_document-included doc rs listed)
    ∙ elim (Option-cases (rel i name)) [
      | inl inherited ↦ rw (inherited, resolve) refl
      | inr (refs, e) ↦
          let plain : All (λ (r : ResourceRef). Without b':' r.type_) refs = rw e at named in
          rw (e, resolve)
            (ap ok (
              filter_map-ext _ _ refs (
                All-mono _ _ (λ r h. include_from-lookup r h (or_else doc.included []) [] typed)
                  refs plain)))
    ]
