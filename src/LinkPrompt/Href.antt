-- ===== src/LinkPrompt/Href.antt =====
-- The links that are applied.
use kiln_cms.Prelude.{
  is_empty, trim_start, trim_end, trim, ℕ, ◌≡◌, refl, sym, ap, ◌∙◌, subst, true, false, not, ◌&&◌,
  ◌||◌, Option, none, some, or_else, List, [], ◌∷◌, All, Text, codes, is_space, lower, starts,
  includes, text_eq, Bool-cases, Option-cases, inl, inr, arith, if◌then◌else◌,
}
use kiln_cms.LinkPrompt.{
  Parsed, is_local, scheme_of, has_authority, is_web, allows, safe_href, Prompt, Edit, untouched,
  unset_link, insert_link, set_link, Caret, submit, is_link, PromptEvent, opens, submits, unlinks,
  types, escapes, leaves, step, edits,
}

trim_end_idem : (s : Text) → trim_end (trim_end s) ≡ trim_end s
unfolding trim_end
trim_end_idem [] = refl
trim_end_idem (c ∷ s) = elim (Bool-cases (is_empty (trim_end s) && is_space c)) [
  | inl blank ↦ rw blank refl
  | inr kept ↦ rw (kept, trim_end_idem s, kept) refl
]

-- The end of a text without white at its end has none either.
trim_end-rest : (c : ℕ) (s : Text) → trim_end (c ∷ s) ≡ c ∷ s → trim_end s ≡ s
unfolding trim_end
trim_end-rest c s e = elim (Bool-cases (is_empty (trim_end s) && is_space c)) [
  | inl blank ↦ ground (arith, rw blank at e)
  | inr kept ↦ ap tail (rw kept at e)
]
  where
    tail : Text → Text
    tail [] = []
    tail (_ ∷ t) = t

trim_end-trim_start : (s : Text) → trim_end s ≡ s → trim_end (trim_start s) ≡ trim_start s
unfolding trim_start
trim_end-trim_start [] e = e
trim_end-trim_start (c ∷ s) e = elim (Bool-cases (is_space c)) [
  | inl white ↦ rw white (trim_end-trim_start s (trim_end-rest c s e))
  | inr dark ↦ rw dark e
]

trim_start_idem : (s : Text) → trim_start (trim_start s) ≡ trim_start s
unfolding trim_start
trim_start_idem [] = refl
trim_start_idem (c ∷ s) = elim (Bool-cases (is_space c)) [
  | inl white ↦ rw white (trim_start_idem s)
  | inr dark ↦ rw (dark, dark) refl
]

pub trim_idem : (s : Text) → trim (trim s) ≡ trim s
trim_idem s =
    ap trim_start (trim_end-trim_start (trim_end s) (trim_end_idem s))
    ∙ trim_start_idem (trim_end s)

-- What may be stored as a link: a fragment; a path on the same origin; a web URL that names a host
-- itself; or a mail address.
pub data IsSafe (parse : Text → Option Parsed) (s : Text) : Type 0 where
  fragment : starts (codes "#") s ≡ true → IsSafe parse s
  local_path :
      starts (codes "/") s ≡ true
      → starts (codes "//") s ≡ false
      → includes (codes "\\") s ≡ false
      → includes (codes "..") s ≡ false
      → IsSafe parse s
  web :
      (parsed : Parsed)
      → parse s ≡ some parsed
      → includes (codes "javascript:") (lower s) ≡ false
      → is_web (scheme_of parsed.protocol) ≡ true
      → has_authority s ≡ true
      → is_empty parsed.host ≡ false
      → IsSafe parse s
  mail :
      (parsed : Parsed)
      → parse s ≡ some parsed
      → includes (codes "javascript:") (lower s) ≡ false
      → text_eq (scheme_of parsed.protocol) (codes "mailto") ≡ true
      → IsSafe parse s

local-IsSafe : (parse : Text → Option Parsed) (s : Text) → is_local s ≡ true → IsSafe parse s
unfolding is_local
local-IsSafe parse s e =
    local_path (ground (arith, e)) (ground (arith, e)) (ground (arith, e)) (ground (arith, e))

allows-IsSafe :
    (parse : Text → Option Parsed) (s : Text) (parsed : Parsed)
    → parse s ≡ some parsed
    → allows s parsed ≡ true
    → IsSafe parse s
unfolding allows
allows-IsSafe parse s parsed read e = elim (Bool-cases (includes (codes "javascript:") (lower s))) [
  | inl script ↦ ground (arith, rw (script, allows) at e)
  | inr clean ↦ elim (Bool-cases (is_web (scheme_of parsed.protocol))) [
    | inl on_web ↦
        let both : (has_authority s && not (is_empty parsed.host)) ≡ true =
          rw (clean, allows, on_web) at e in
        web parsed read clean on_web (ground (arith, both)) (ground (arith, both))
    | inr off_web ↦ mail parsed read clean (rw (clean, allows, off_web) at e)
  ]
]

safe_href-read :
    (parse : Text → Option Parsed) (url : Text) {t : Text}
    → safe_href parse url ≡ some t
    → (trim url ≡ t) × IsSafe parse (trim url)
unfolding safe_href
safe_href-read parse url {t} e = elim (Bool-cases (is_empty (trim url))) [
  | inl empty ↦ ground (arith, rw (empty, safe_href) at e)
  | inr full ↦ elim (Bool-cases (starts (codes "#") (trim url))) [
    | inl hash ↦ (ap (or_else_of t) (rw (full, safe_href, hash) at e), fragment hash)
    | inr no_hash ↦ elim (Bool-cases (is_local (trim url))) [
      | inl path ↦ (
        ap (or_else_of t) (rw (full, safe_href, no_hash, path) at e),
        local-IsSafe parse (trim url) path,
      )
      | inr no_path ↦ elim (Option-cases (parse (trim url))) [
        | inl unread ↦ ground (arith, rw (full, safe_href, no_hash, no_path, unread) at e)
        | inr (parsed, read) ↦ elim (Bool-cases (allows (trim url) parsed)) [
          | inl yes_ ↦ (
            ap (or_else_of t) (rw (full, safe_href, no_hash, no_path, read, yes_) at e),
            allows-IsSafe parse (trim url) parsed read yes_,
          )
          | inr no_ ↦ ground (arith, rw (full, safe_href, no_hash, no_path, read, no_) at e)
        ]
      ]
    ]
  ]
]
  where
    or_else_of : Text → Option Text → Text
    or_else_of d o = or_else o d

safe_href-trim :
    (parse : Text → Option Parsed) (url : Text) → safe_href parse (trim url) ≡ safe_href parse url
unfolding safe_href
safe_href-trim parse url =
    ap
      (λ s.
        if is_empty s
        then none
        else if starts (codes "#") s || is_local s
        then some s
        else elim (parse s) [
          | none ↦ none
          | some parsed ↦ if allows s parsed then some s else none
        ])
      (trim_idem url)

-- A URL that `safeHref` accepts is trimmed, is of one of the four kinds that may be stored, and is
-- accepted unchanged when it is read again.
pub safe_href-IsSafe :
    (parse : Text → Option Parsed) (url : Text) {t : Text}
    → safe_href parse url ≡ some t
    → (trim url ≡ t) × IsSafe parse t × (safe_href parse t ≡ some t)
safe_href-IsSafe parse url {t} e =
    let (trimmed, safe) = safe_href-read parse url e in
    (
      trimmed,
      subst (IsSafe parse) trimmed safe,
      ap (safe_href parse) (sym trimmed) ∙ (safe_href-trim parse url ∙ e),
    )

-- A link that is set or inserted may be stored.
abbrev pub IsSafeEdit : (Text → Option Parsed) → Edit → Type 0
IsSafeEdit parse untouched = Unit
IsSafeEdit parse unset_link = Unit
IsSafeEdit parse (insert_link href) = IsSafe parse href
IsSafeEdit parse (set_link href) = IsSafe parse href

submit-IsSafe :
    (parse : Text → Option Parsed) (caret : Caret) (p : Prompt)
    → IsSafeEdit parse (submit parse caret p).1
unfolding submit
submit-IsSafe parse caret p = elim (Option-cases (safe_href parse p.input)) [
  | inl refused ↦ rw (refused, submit) tt
  | inr (href, e) ↦
      let safe : IsSafe parse href = (safe_href-IsSafe parse p.input e).1 in
      elim (Bool-cases (caret.empty && not (is_link caret.link))) [
        | inl alone ↦ rw (e, submit, alone) safe
        | inr over ↦ rw (e, submit, over) safe
      ]
]

step-IsSafe :
    (parse : Text → Option Parsed) (e : PromptEvent) (p : Prompt)
    → IsSafeEdit parse (step parse e p).1
unfolding step
step-IsSafe parse (opens caret) p = tt
step-IsSafe parse (types s) p = tt
step-IsSafe parse (submits caret) p = submit-IsSafe parse caret p
step-IsSafe parse (unlinks caret) p = tt
step-IsSafe parse escapes p = tt
step-IsSafe parse leaves p = tt

-- Whatever is typed into the prompt, and however it is opened and closed, every link that it puts
-- into the prose is of one of the four kinds that may be stored.
pub edits-IsSafe :
    (parse : Text → Option Parsed) (es : List PromptEvent) (p : Prompt)
    → All (IsSafeEdit parse) (edits parse es p)
unfolding edits
edits-IsSafe parse [] p = tt
edits-IsSafe parse (e ∷ es) p = (step-IsSafe parse e p, edits-IsSafe parse es (step parse e p).0)
