-- ===== src/Errors/ByField.antt =====
-- The messages of a refused write, by field.
use kiln_cms.Prelude.{
  ◌≡◌, refl, sym, ap, ◌∙◌, Bool, true, false, none, some, or_else, List, [], ◌∷◌, ◌++◌,
  append_assoc, append-nil, Text, text_eq, text_eq_iff, if◌then◌else◌, err, ok, Bool-cases,
  Option-cases, inl, inr, arith, any, ◌||◌, ◌⊎◌,
}
use kiln_cms.Json.{Json, lookup, assign}
use kiln_cms.Json.Entries.{lookup-assign}
use kiln_cms.Errors.{
  KilnHttpError, pointer_of, field_of, message_of, is_inherited, push_message, group_errors,
  field_errors, form_field_errors, not_a_function,
}

-- What is stored under a name.
abbrev at_name : Text → List (Text × List Json) → List Json
at_name name es = or_else (lookup name es) []

-- The message of an error that names a field; of another, nothing.
unfoldable pub messages_at : Text → Json → List Json
messages_at name e = elim (pointer_of e) [
  | none ↦ []
  | some pointer ↦ if text_eq (field_of pointer) name then message_of e ∷ [] else []
]

-- The messages of the errors that name a field, in their order.
abbrev pub messages_for : Text → List Json → List Json
messages_for name [] = []
messages_for name (e ∷ es) = messages_at name e ++ messages_for name es

-- Whether an error names a field that every object inherits.
abbrev pub names_inherited : Json → Bool
names_inherited e = elim (pointer_of e) [
  | none ↦ false
  | some pointer ↦ is_inherited (field_of pointer)
]

-- Nothing is stored under a name that is inherited.
abbrev IsOwn : List (Text × List Json) → Type 0
IsOwn es = (name : Text) → is_inherited name ≡ true → lookup name es ≡ none

at_name-assign :
    (name k : Text) (messages : List Json) (message : Json) (es : List (Text × List Json))
    → at_name k es ≡ messages
    → at_name name (assign k (messages ++ message ∷ []) es)
      ≡ at_name name es ++ (if text_eq k name then message ∷ [] else [])
at_name-assign name k messages message es e = elim (Bool-cases (text_eq k name)) [
  | inl hit ↦
      let same : at_name name es ≡ messages =
        ap (λ n. at_name n es) (sym ((text_eq_iff k name).0 hit)) ∙ e in
      rw (lookup-assign name k (messages ++ message ∷ []) es, hit, same) refl
  | inr miss ↦
      rw (lookup-assign name k (messages ++ message ∷ []) es, miss)
        (sym (append-nil (at_name name es)))
]

push_message-ok :
    (k : Text) (message : Json) (es : List (Text × List Json))
    → is_inherited k ≡ false
    → (g : List (Text × List Json)) × (push_message k message es ≡ ok g)
      × ((name : Text)
          → at_name name g ≡ at_name name es ++ (if text_eq k name then message ∷ [] else []))
      × ((name : Text) → text_eq k name ≡ false → lookup name g ≡ lookup name es)
unfolding push_message
push_message-ok k message es own = elim (Option-cases (lookup k es)) [
  | inl absent ↦ (
    assign k (message ∷ []) es,
    rw (absent, push_message, own) refl,
    λ name. at_name-assign name k [] message es (ap (λ o. or_else o []) absent),
    λ name miss. lookup-assign name k (message ∷ []) es ∙ rw miss refl,
  )
  | inr (messages, e) ↦ (
    assign k (messages ++ message ∷ []) es,
    rw (e, push_message) refl,
    λ name. at_name-assign name k messages message es (ap (λ o. or_else o []) e),
    λ name miss. lookup-assign name k (messages ++ message ∷ []) es ∙ rw miss refl,
  )
]

messages_at-named :
    (name : Text) (e : Json) {pointer : Text}
    → pointer_of e ≡ some pointer
    → messages_at name e ≡ (if text_eq (field_of pointer) name then message_of e ∷ [] else [])
unfolding messages_at
messages_at-named name e named = rw (named, messages_at) refl

messages_at-unnamed : (name : Text) (e : Json) → pointer_of e ≡ none → messages_at name e ≡ []
unfolding messages_at
messages_at-unnamed name e unnamed = rw (unnamed, messages_at) refl

-- The errors, grouped after those that are grouped already.
group_errors-ok :
    (es : List Json) (acc : List (Text × List Json))
    → any names_inherited es ≡ false
    → (g : List (Text × List Json)) × (group_errors es acc ≡ ok g)
      × ((name : Text) → at_name name g ≡ at_name name acc ++ messages_for name es)
unfolding group_errors
group_errors-ok [] acc own = (acc, refl, λ name. sym (append-nil (at_name name acc)))
group_errors-ok (e ∷ es) acc own = elim (Option-cases (pointer_of e)) [
  | inl unnamed ↦
      let (g, grouped, at_g) = group_errors-ok es acc (rw (unnamed, names_inherited) at own) in
      (
        g,
        rw (unnamed, group_errors) grouped,
        λ name.
            at_g name
            ∙ ap (λ l. at_name name acc ++ (l ++ messages_for name es))
                (sym (messages_at-unnamed name e unnamed)),
      )
  | inr (pointer, named) ↦
      let own_ : (is_inherited (field_of pointer) || any names_inherited es) ≡ false =
        rw (named, names_inherited) at own in
      let (h, pushed, at_h, _) =
        push_message-ok (field_of pointer) (message_of e) acc (ground (arith, own_)) in
      let (g, grouped, at_g) = group_errors-ok es h (ground (arith, own_)) in
      (
        g,
        rw (named, group_errors, pushed) grouped,
        λ name.
            at_g name
            ∙ (ap (λ l. l ++ messages_for name es) (at_h name)
                ∙ (append_assoc (at_name name acc) _ (messages_for name es)
                    ∙ ap (λ l. at_name name acc ++ (l ++ messages_for name es))
                        (sym (messages_at-named name e named)))),
      )
]

push_message-throws :
    (k : Text) (message : Json) (es : List (Text × List Json))
    → lookup k es ≡ none
    → is_inherited k ≡ true
    → push_message k message es ≡ err not_a_function
unfolding push_message
push_message-throws k message es absent bad = rw (absent, push_message, bad) refl

inherited-other :
    (k name : Text) → is_inherited k ≡ false → is_inherited name ≡ true → text_eq k name ≡ false
inherited-other k name own bad = elim (Bool-cases (text_eq k name)) [
  | inr other ↦ other
  | inl same ↦
      absurd
        (ground (arith, sym own ∙ (ap (λ n. is_inherited n) ((text_eq_iff k name).0 same) ∙ bad)))
]

group_errors-throws :
    (es : List Json) (acc : List (Text × List Json))
    → IsOwn acc
    → any names_inherited es ≡ true
    → group_errors es acc ≡ err not_a_function
unfolding group_errors
group_errors-throws [] acc own bad = ground (arith, bad)
group_errors-throws (e ∷ es) acc own bad = elim (Option-cases (pointer_of e)) [
  | inl unnamed ↦
      rw (unnamed, group_errors)
        (group_errors-throws es acc own (rw (unnamed, names_inherited) at bad))
  | inr (pointer, named) ↦ elim (Bool-cases (is_inherited (field_of pointer))) [
    | inl inherited ↦
        let thrown : push_message (field_of pointer) (message_of e) acc ≡ err not_a_function =
          push_message-throws (field_of pointer) (message_of e) acc
            (own (field_of pointer) inherited) inherited in
        rw (named, group_errors, thrown) refl
    | inr fits ↦
        let (h, pushed, _, kept) = push_message-ok (field_of pointer) (message_of e) acc fits in
        let later : (is_inherited (field_of pointer) || any names_inherited es) ≡ true =
          rw (named, names_inherited) at bad in
        rw (named, group_errors, pushed)
          (group_errors-throws es h
            (λ name n. kept name (inherited-other (field_of pointer) name fits n) ∙ own name n)
            (ground (arith, fits, later)))
  ]
]

-- The errors of a refusal are read by field. Unless the refusal is that of a form, each field has
-- just the messages of the errors that name it, in their order; and reading them throws exactly when
-- an error names a field that every JavaScript object inherits, such as `constructor`.
pub field_errors-groups :
    (error : KilnHttpError)
    → form_field_errors error.body ≡ none
    → ((any names_inherited error.errors ≡ true) × (field_errors error ≡ err not_a_function))
      ⊎ ((any names_inherited error.errors ≡ false)
          × ((g : List (Text × List Json)) × (field_errors error ≡ ok g)
              × ((name : Text) → or_else (lookup name g) [] ≡ messages_for name error.errors)))
unfolding field_errors
field_errors-groups error unformed = elim (Bool-cases (any names_inherited error.errors)) [
  | inl bad ↦
      inl (
        bad,
        rw (unformed, field_errors) (group_errors-throws error.errors [] (λ name n. refl) bad),
      )
  | inr own ↦
      let (g, grouped, at_g) = group_errors-ok error.errors [] own in
      inr (own, (g, rw (unformed, field_errors) grouped, at_g))
]
