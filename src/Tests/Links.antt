-- ===== src/Tests/Links.antt =====
-- Runs of the links of rich_text.js, with a parser that reads a few URLs.
use kiln_cms.Prelude.{
  trim_start, trim_end, trim, ◌≡◌, refl, true, false, Option, none, some, List, [], ◌∷◌, All, Text,
  codes, starts, if◌then◌else◌,
}
use kiln_cms.LinkPrompt.{
  Parsed, is_local, scheme_of, has_authority, allows, safe_href, Prompt, PromptEvent, opens, types,
  submits, edits,
}
use kiln_cms.LinkPrompt.Href.{IsSafe, safe_href-IsSafe, IsSafeEdit, edits-IsSafe}

abbrev parse : Text → Option Parsed
parse s =
    if starts (codes "https:") s
    then some (record { protocol = codes "https:"; host = codes "kiln" })
    else if starts (codes "mailto:") s
    then some (record { protocol = codes "mailto:"; host = [] })
    else none

accepts_web : safe_href parse (codes " https://kiln/a ") ≡ some (codes "https://kiln/a")
unfolding safe_href trim_start trim_end is_local allows scheme_of has_authority
accepts_web = refl

refuses_no_host : safe_href parse (codes "https:///a") ≡ none
unfolding safe_href trim_start trim_end is_local allows scheme_of has_authority
refuses_no_host = refl

refuses_script : safe_href parse (codes "mailto:a?body=javascript:x") ≡ none
unfolding safe_href trim_start trim_end is_local allows scheme_of has_authority
refuses_script = refl

refuses_host : safe_href parse (codes "//kiln/a") ≡ none
unfolding safe_href trim_start trim_end is_local
refuses_host = refl

safe_href-IsSafe_example :
    (trim (codes " https://kiln/a ") ≡ codes "https://kiln/a")
    × IsSafe parse (codes "https://kiln/a")
    × (safe_href parse (codes "https://kiln/a") ≡ some (codes "https://kiln/a"))
safe_href-IsSafe_example = safe_href-IsSafe parse (codes " https://kiln/a ") accepts_web

abbrev shut : Prompt
shut = record { open_ = false; input = []; error = false; removable = false }

abbrev events : List PromptEvent
events =
    opens (record { link = none; empty = true })
    ∷ types (codes "/about")
    ∷ submits (record { link = none; empty = true })
    ∷ []

edits-IsSafe_example : All (IsSafeEdit parse) (edits parse events shut)
edits-IsSafe_example = edits-IsSafe parse events shut
