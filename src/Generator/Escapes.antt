-- ===== src/Generator/Escapes.antt =====
-- What is escaped in the declarations is read back by TypeScript as it was.
use kiln_cms.Prelude.{
  ℕ, ◌≡◌, refl, sym, ap, subst, ◌∙◌, Bool, true, false, ◌&&◌, ◌||◌, Option, none, some, List, [],
  ◌∷◌, ◌++◌, append_assoc, Text, codes, starts, includes, ◌==◌, ==_iff, if◌then◌else◌, Bool-cases,
  inl, inr, arith, join, map,
}
use kiln_cms.Json.{Json, str}
use kiln_cms.Generator.Names.{backslash, quote, escaped, escape_string, escape_close}
use kiln_cms.Generator.{literal, doc_comment, annotation_of}

-- What stands for a character.
unfoldable escape_char : ℕ → Text
escape_char c =
    if c == backslash
    then escaped backslash
    else if c == quote
    then escaped quote
    else if c == 10
    then escaped b'n'
    else if c == 13
    then escaped b'r'
    else if c == 9
    then escaped b't'
    else c ∷ []

escape_char-cases :
    (P : ℕ → Type 0)
    → P backslash
    → P quote
    → P 10
    → P 13
    → P 9
    → ((c : ℕ)
        → (c == backslash) ≡ false
        → (c == quote) ≡ false
        → (c == 10) ≡ false
        → (c == 13) ≡ false
        → (c == 9) ≡ false
        → P c)
    → (c : ℕ) → P c
escape_char-cases P p1 p2 p3 p4 p5 other c = elim (Bool-cases (c == backslash)) [
  | inl e ↦ subst P (sym ((==_iff c backslash).0 e)) p1
  | inr e1 ↦ elim (Bool-cases (c == quote)) [
    | inl e ↦ subst P (sym ((==_iff c quote).0 e)) p2
    | inr e2 ↦ elim (Bool-cases (c == 10)) [
      | inl e ↦ subst P (sym ((==_iff c 10).0 e)) p3
      | inr e3 ↦ elim (Bool-cases (c == 13)) [
        | inl e ↦ subst P (sym ((==_iff c 13).0 e)) p4
        | inr e4 ↦ elim (Bool-cases (c == 9)) [
          | inl e ↦ subst P (sym ((==_iff c 9).0 e)) p5
          | inr e5 ↦ other c e1 e2 e3 e4 e5
        ]
      ]
    ]
  ]
]

-- The replacements, one after another, escape each character.
escape_string-cons : (s : Text) (c : ℕ) → escape_string (c ∷ s) ≡ escape_char c ++ escape_string s
unfolding escape_string escape_char
escape_string-cons s =
    escape_char-cases (λ c. escape_string (c ∷ s) ≡ escape_char c ++ escape_string s) refl refl refl
      refl refl (λ c e1 e2 e3 e4 e5. rw (e1, e2, e3, e4, e5) refl)

-- What a character after a backslash stands for.
abbrev pub escape_value : ℕ → ℕ
escape_value c = if c == b'n' then 10 else if c == b'r' then 13 else if c == b't' then 9 else c

abbrev pub put : ℕ → Option (Text × Text) → Option (Text × Text)
put c none = none
put c (some (s, rest)) = some (c ∷ s, rest)

-- A string literal of TypeScript, read after its opening quote: its value, and what comes after its
-- closing quote. A line does not end inside it. The first argument tells of a backslash just read.
unfoldable pub read_literal : Bool → Text → Option (Text × Text)
read_literal after_backslash [] = none
read_literal true (c ∷ s) = put (escape_value c) (read_literal false s)
read_literal false (c ∷ s) =
    let value = read_literal true s in
    let rest = read_literal false s in
    if c == quote
    then some ([], s)
    else if c == backslash
    then value
    else if c == 10 || c == 13
    then none
    else put c rest

read_literal-plain :
    (s : Text) (c : ℕ)
    → (c == backslash) ≡ false
    → (c == quote) ≡ false
    → (c == 10) ≡ false
    → (c == 13) ≡ false
    → read_literal false (c ∷ s) ≡ put c (read_literal false s)
unfolding read_literal
read_literal-plain s c e1 e2 e3 e4 = rw (e2, e1, e3, e4) refl

escape_char-plain :
    (c : ℕ)
    → (c == backslash) ≡ false
    → (c == quote) ≡ false
    → (c == 10) ≡ false
    → (c == 13) ≡ false
    → (c == 9) ≡ false
    → escape_char c ≡ c ∷ []
unfolding escape_char
escape_char-plain c e1 e2 e3 e4 e5 = rw (e1, e2, e3, e4, e5) refl

read_literal-escape_char :
    (s : Text) (c : ℕ) → read_literal false (escape_char c ++ s) ≡ put c (read_literal false s)
unfolding escape_char read_literal
read_literal-escape_char s =
    escape_char-cases (λ c. read_literal false (escape_char c ++ s) ≡ put c (read_literal false s))
      refl refl refl refl refl
      (λ c e1 e2 e3 e4 e5.
        ap (λ l. read_literal false (l ++ s)) (escape_char-plain c e1 e2 e3 e4 e5)
        ∙ read_literal-plain s c e1 e2 e3 e4)

read_literal-escape_string :
    (s rest : Text) → read_literal false (escape_string s ++ quote ∷ rest) ≡ some (s, rest)
read_literal-escape_string [] rest = unfold escape_string read_literal in refl
read_literal-escape_string (c ∷ s) rest =
    ap (λ l. read_literal false (l ++ quote ∷ rest)) (escape_string-cons s c)
    ∙ (ap (read_literal false) (append_assoc (escape_char c) (escape_string s) (quote ∷ rest))
        ∙ (read_literal-escape_char (escape_string s ++ quote ∷ rest) c
            ∙ ap (put c) (read_literal-escape_string s rest)))

-- A text that is emitted as a string literal, whatever characters it has and whatever comes after it,
-- is read by TypeScript as that text: it does not end early, and nothing in it changes.
pub literal-read_literal :
    (s rest : Text)
    → (body : Text) × (literal (str s) ++ rest ≡ quote ∷ body)
      × (read_literal false body ≡ some (s, rest))
unfolding literal
literal-read_literal s rest = (
  escape_string s ++ quote ∷ rest,
  ap (λ l. quote ∷ l) (append_assoc (escape_string s) (quote ∷ []) rest),
  read_literal-escape_string s rest,
)

-- What ends a comment.
abbrev pub close : Text
close = codes "*/"

starts-escape_close : (d : ℕ) (s : Text) → starts (b'/' ∷ []) (escape_close (d ∷ s)) ≡ (b'/' == d)
unfolding escape_close
starts-escape_close d [] = ground arith
starts-escape_close d (e ∷ s) = elim (Bool-cases (d == b'*' && e == b'/')) [
  | inl hit ↦ rw hit (ground (arith, hit))
  | inr miss ↦ rw miss (ground arith)
]

escape_close-open : (s : Text) → includes close (escape_close s) ≡ false
unfolding escape_close
escape_close-open [] = refl
escape_close-open (c ∷ []) = ground arith
escape_close-open (c ∷ d ∷ s) = elim (Bool-cases (c == b'*' && d == b'/')) [
  | inl hit ↦ rw hit (escape_close-open s)
  | inr miss ↦ rw miss (ground (arith, miss, starts-escape_close d s, escape_close-open (d ∷ s)))
]

-- A space after it closes nothing.
includes-space : (s : Text) → includes close (s ++ codes " ") ≡ includes close s
includes-space [] = refl
includes-space (c ∷ []) = ground arith
includes-space (c ∷ d ∷ s) = rw (includes-space (d ∷ s)) refl

-- The inside of a comment: it does not end before its end.
abbrev pub IsInside : Text → Type 0
IsInside inner = includes close (inner ++ codes " ") ≡ false

-- A description, and the names of a reference's targets, stand in a comment that ends where the emitter
-- ends it: between its two ends there is no `*/`, whatever they are.
pub comments-closed :
    (description : Text) (t : Json) (ts : List Json)
    → ((inner : Text) × (doc_comment (some description) ≡ codes "/*" ++ (inner ++ codes " */\n"))
        × IsInside inner)
      × ((inner : Text) × (annotation_of (some (t ∷ ts)) ≡ codes "/*" ++ (inner ++ codes " */ "))
          × IsInside inner)
unfolding doc_comment annotation_of
comments-closed description t ts =
    let names = join (codes " | ") (map literal (t ∷ ts)) in
    (
      (
        codes "* " ++ escape_close description,
        refl,
        includes-space (escape_close description) ∙ escape_close-open description,
      ),
      (
        codes " links to: " ++ escape_close names,
        refl,
        includes-space (escape_close names) ∙ escape_close-open names,
      ),
    )
