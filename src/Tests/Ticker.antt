-- ===== src/Tests/Ticker.antt =====
-- Runs of the save line.
use kiln_cms.Prelude.{ℕ, ◌≡◌, refl, true, false, [], codes, show}
use kiln_cms.SavedTicker.{Words, Screen, saved_line, replace_first, paint, mounted, faded, flash}

abbrev english : Words
english = record {
  saved = codes "Saved";
  just_now = codes "Saved just now";
  stamp = codes "Last saved %{time}";
  narrow = codes "%{time}";
  tooltip = codes "Last saved at %{time}";
  offline = codes "Offline";
}

abbrev clock : ℕ → ℕ × ℕ × ℕ
clock _ = (14, 5, 9)

abbrev page : ℕ → Screen
page at = record {
  at = at;
  state = codes "saved";
  is_offline = false;
  wide = true;
  words = english;
}

-- A save lands while somebody watches: the line is loud, then quiet.
stamped : (mounted clock (page 1) 30000 []).text ≡ codes "Last saved 14:05"
unfolding mounted paint saved_line replace_first show
stamped = refl

loud : (paint clock (page 40000) 40100 (mounted clock (page 1) 30000 [])).text ≡ codes "Saved"
unfolding mounted paint saved_line replace_first flash
loud = refl

quiet :
    (faded clock
      (page 40000)
      42700
      (paint clock (page 40000) 40100 (mounted clock (page 1) 30000 []))).text
    ≡ codes "Saved just now"
unfolding mounted paint saved_line replace_first flash faded
quiet = refl
