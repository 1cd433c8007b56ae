-- ===== src/SavedTicker.antt =====
-- The save line of a screen that saves by itself, assets/js/saved_ticker.js. What `Date` reads of a
-- time in the visitor's time zone (hours, minutes and seconds) is a parameter.
use kiln_cms.Prelude.{
  ℕ, ◌+◌, Bool, true, false, not, ◌&&◌, Option, none, some, [], ◌∷◌, ◌++◌, Text, codes, starts,
  drop, length, text_eq, ltb, leb, ◌==◌, if◌then◌else◌, show,
}

abbrev pub flash_ms : ℕ
flash_ms = 2600

-- `FRESH_S`, in milliseconds
abbrev pub fresh_ms : ℕ
fresh_ms = 20000

abbrev pub pad : ℕ → Text
pad n = if ltb n 10 then b'0' ∷ show n else show n

-- `replace` with a text: the first of its places alone.
unfoldable pub replace_first : Text → Text → Text → Text
replace_first old new [] = []
replace_first old new (c ∷ s) =
    let rest = replace_first old new s in
    if starts old (c ∷ s) then new ++ drop (length old) (c ∷ s) else c ∷ rest

pub record Words : Type 0 where
  pub saved : Text
  pub just_now : Text
  pub stamp : Text
  pub narrow : Text
  pub tooltip : Text
  pub offline : Text

pub record Moment : Type 0 where
  pub at : ℕ
  pub now : ℕ
  pub state : Text
  pub is_offline : Bool
  pub flash : Bool
  pub wide : Bool

pub data Tone : Type 0 where
  plain fresh offline : Tone

pub record Line : Type 0 where
  pub text : Text
  pub title : Option Text
  pub tone : Tone

abbrev pub Clock : Type 0
Clock = ℕ → ℕ × ℕ × ℕ

abbrev pub clock_of : ℕ × ℕ × ℕ → Text
clock_of (hours, minutes, seconds) = pad hours ++ b':' ∷ pad minutes

abbrev pub exact_of : ℕ × ℕ × ℕ → Text
exact_of (hours, minutes, seconds) = clock_of (hours, minutes, seconds) ++ b':' ∷ pad seconds

-- `savedLine`, once there is a save to speak of.
abbrev pub line_of : Words → Moment → ℕ × ℕ × ℕ → Line
line_of words m local =
    let clock = clock_of local in
    let title = some (replace_first (codes "%{time}") (exact_of local) words.tooltip) in
    let is_fresh = ltb m.now (m.at + fresh_ms) in
    if m.flash
    then record { text = words.saved; title = title; tone = fresh }
    else if not m.wide
    then record {
      text = if is_fresh then words.saved else replace_first (codes "%{time}") clock words.narrow;
      title = title;
      tone = plain;
    }
    else record {
      text = if is_fresh then words.just_now else replace_first (codes "%{time}") clock words.stamp;
      title = title;
      tone = plain;
    }

unfoldable pub saved_line : Clock → Words → Moment → Option Line
saved_line clock words m =
    if m.is_offline
    then some (record { text = words.offline; title = none; tone = offline })
    else if not (text_eq m.state (codes "saved")) && not (text_eq m.state (codes "pending"))
    then none
    else if m.at == 0
    then none
    else some (line_of words m (clock m.at))

-- What the page says when the line is painted; without a save, `at` is 0.
pub record Screen : Type 0 where
  pub at : ℕ
  pub state : Text
  pub is_offline : Bool
  pub wide : Bool
  pub words : Words

-- The hook's variables, and what it writes: the classes `fresh` and `offline`, the text and the
-- tooltip. The timer is kept as the time at which it is due.
pub record Ticker : Type 0 where
  pub at : ℕ
  pub fade : Option ℕ
  pub is_fresh : Bool
  pub is_offline : Bool
  pub text : Text
  pub title : Option Text

unfoldable pub flash : ℕ → Ticker → Ticker
flash now t = record t { is_fresh = true; fade = some (now + flash_ms) }

abbrev pub is_offline_tone : Tone → Bool
is_offline_tone offline = true
is_offline_tone fresh = false
is_offline_tone plain = false

abbrev pub painted : Option Line → Ticker → Ticker
painted none t = record t { is_offline = false; title = none }
painted (some line) t = record t {
  is_offline = is_offline_tone line.tone;
  title = line.title;
  text = line.text;
}

unfoldable pub paint : Clock → Screen → ℕ → Ticker → Ticker
paint clock page now t =
    let t' =
      if not (page.at == 0) && not (page.at == t.at)
      then flash now (record t { at = page.at })
      else t in
    painted
      (saved_line clock page.words (record {
        at = page.at;
        now = now;
        state = page.state;
        is_offline = page.is_offline;
        flash = t'.is_fresh;
        wide = page.wide;
      }))
      t'

-- The line arrives with the last save on it; `text` is what the server wrote.
unfoldable pub mounted : Clock → Screen → ℕ → Text → Ticker
mounted clock page now text = paint clock page now (record {
  at = page.at;
  fade = none;
  is_fresh = false;
  is_offline = false;
  text = text;
  title = none;
})

abbrev pub is_over : ℕ → Option ℕ → Bool
is_over now none = false
is_over now (some due) = leb due now

-- The timer of `flash`, when it goes off.
unfoldable pub faded : Clock → Screen → ℕ → Ticker → Ticker
faded clock page now t =
    if is_over now t.fade
    then paint clock page now (record t { is_fresh = false; fade = none })
    else t

unfoldable pub destroyed : Ticker → Ticker
destroyed t = record t { fade = none }
