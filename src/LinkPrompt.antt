-- ===== src/LinkPrompt.antt =====
-- Links in assets/js/rich_text.js: `safeHref`, and the prompt (`LinkPrompt`) that applies a link. The
-- URL parser of the platform (`new URL`) is a parameter.
pub mod Href
use kiln_cms.Prelude.{
  is_empty, trim_start, trim_end, trim, ℕ, Bool, true, false, not, ◌&&◌, ◌||◌, Option, none, some,
  List, [], ◌∷◌, drop, Text, codes, is_space, lower, starts, includes, text_eq, ◌==◌, if◌then◌else◌,
}

pub record Parsed : Type 0 where
  pub protocol : Text
  pub host : Text

-- A path on the same origin.
unfoldable pub is_local : Text → Bool
is_local s =
    starts (codes "/") s
    && not (starts (codes "//") s)
    && not (includes (codes "\\") s)
    && not (includes (codes "..") s)

-- `protocol.replace(/:$/, "")`
unfoldable pub scheme_of : Text → Text
scheme_of [] = []
scheme_of (c ∷ s) = let rest = scheme_of s in if c == b':' && is_empty s then [] else c ∷ rest

abbrev pub begins_name : Text → Bool
begins_name [] = false
begins_name (c ∷ _) = not (c == b'/') && not (is_space c)

-- /^https?:\/\/[^/\s]/i
unfoldable pub has_authority : Text → Bool
has_authority s =
    (starts (codes "http://") (lower s) && begins_name (drop 7 s))
    || (starts (codes "https://") (lower s) && begins_name (drop 8 s))

abbrev pub is_web : Text → Bool
is_web scheme = text_eq scheme (codes "http") || text_eq scheme (codes "https")

-- An absolute URL that the parser has read.
unfoldable pub allows : Text → Parsed → Bool
allows s parsed =
    if includes (codes "javascript:") (lower s)
    then false
    else if is_web (scheme_of parsed.protocol)
    then has_authority s && not (is_empty parsed.host)
    else text_eq (scheme_of parsed.protocol) (codes "mailto")

unfoldable pub safe_href : (Text → Option Parsed) → Text → Option Text
safe_href parse url =
    let s = trim url in
    if is_empty s
    then none
    else if starts (codes "#") s || is_local s
    then some s
    else elim (parse s) [ none ↦ none | some parsed ↦ if allows s parsed then some s else none ]

-- The popover: whether it is open, what is typed, and whether its message is shown.
pub record Prompt : Type 0 where
  pub open_ : Bool
  pub input : Text
  pub error : Bool
  pub removable : Bool

-- What the prompt does to the prose.
pub data Edit : Type 0 where
  untouched unset_link : Edit
  insert_link set_link : Text → Edit

-- What the editor tells at the caret: the link that is there, and whether nothing is selected.
pub record Caret : Type 0 where
  pub link : Option Text
  pub empty : Bool

abbrev pub href_of : Option Text → Text
href_of none = []
href_of (some href) = href

abbrev pub is_link : Option Text → Bool
is_link none = false
is_link (some _) = true

unfoldable pub close : Prompt → Prompt
close p = record p { open_ = false }

unfoldable pub submit : (Text → Option Parsed) → Caret → Prompt → Prompt × Edit
submit parse caret p = elim (safe_href parse p.input) [
  | none ↦ (record p { error = true }, untouched)
  | some href ↦
      if caret.empty && not (is_link caret.link)
      then (close p, insert_link href)
      else (close p, set_link href)
]

-- What happens: the prompt is opened, its text changes, Enter or "Apply", "Remove", Escape, and a
-- press of the mouse elsewhere.
pub data PromptEvent : Type 0 where
  opens submits unlinks : Caret → PromptEvent
  types : Text → PromptEvent
  escapes leaves : PromptEvent

unfoldable pub step : (Text → Option Parsed) → PromptEvent → Prompt → Prompt × Edit
step parse (opens caret) p = (
  record {
    open_ = true;
    input = href_of caret.link;
    error = false;
    removable = is_link caret.link;
  },
  untouched,
)
step parse (types s) p = (record p { input = s }, untouched)
step parse (submits caret) p = submit parse caret p
step parse (unlinks caret) p = (close p, unset_link)
step parse escapes p = (close p, untouched)
step parse leaves p = (close p, untouched)

-- The edits of the prose, in order.
unfoldable pub edits : (Text → Option Parsed) → List PromptEvent → Prompt → List Edit
edits parse [] p = []
edits parse (e ∷ es) p = let (q, edit) = step parse e p in edit ∷ edits parse es q
