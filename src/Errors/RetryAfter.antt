-- ===== src/Errors/RetryAfter.antt =====
-- The wait that an answer asks for.
use kiln_cms.Prelude.{
  refl, ℕ, ◌+◌, ◌*◌, ◌≤◌, ◌<◌, ◌≡◌, ◌⊎◌, Option, some, Text, is_empty, trim, all, is_digit, false,
  arith,
}
use kiln_cms.Errors.{parse_retry_after, seconds_until}

-- A wait until a date ends at the date or after it, and less than a second late.
seconds_until-least :
    (now date : ℕ)
    → (date ≤ now + 1000 * seconds_until now date)
      × ((seconds_until now date ≡ 0) ⊎ (now + 1000 * seconds_until now date < date + 1000))
seconds_until-least now date = ground arith

-- Where `Retry-After` is an HTTP date, the wait in seconds ends at that date or after it, and is 0 or
-- ends less than a second after it.
parse_retry_after-date :
    (parse_date : Text → Option ℕ) (value : Text) (now date : ℕ)
    → is_empty (trim value) ≡ false
    → all is_digit (trim value) ≡ false
    → parse_date value ≡ some date
    → (n : ℕ) × (parse_retry_after parse_date (some value) now ≡ some n)
      × (date ≤ now + 1000 * n)
      × ((n ≡ 0) ⊎ (now + 1000 * n < date + 1000))
unfolding parse_retry_after
parse_retry_after-date parse_date value now date full words e =
    let (late, soon) = seconds_until-least now date in
    (seconds_until now date, rw (full, words, e) refl, late, soon)
