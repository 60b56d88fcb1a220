-- ===== src/Cli/Durations.antt =====
-- lib/bombadil-cli/src/duration.rs: durations as options of the command line, such as 30s and 2h.
pub mod RoundTrip
pub mod Sound
use bombadil.Common.{
  ℕ, ◌+◌, ◌*◌, ◌/◌, ◌%◌, ◌^◌, Bool, true, false, Option, none, some, List, [], ◌∷◌, ◌++◌, ltb, ◌==◌,
  if◌then◌else◌,
}
use bombadil.Common.Text.{Text, codes, same_text, is_digit, trim, value, decimal}
use bombadil.Common.Result.{Result, ok, err, ◌>>=◌, ◌>>◌}

-- The messages, with the text that each one shows.
pub data DurationError : Type 0 where
  missing_unit missing_number invalid_number unknown_unit : Text → DurationError
  too_large zero_duration : DurationError

abbrev pub add_digit : ℕ → Option (Text × Text) → Option (Text × Text)
add_digit c none = none
add_digit c (some (digits, suffix)) = some (c ∷ digits, suffix)

-- `find` of the first character that is no digit, and `split_at` there.
unfoldable pub split_digits : Text → Option (Text × Text)
split_digits [] = none
split_digits (c ∷ s) =
    let rest = split_digits s in if is_digit c then add_digit c rest else some ([], c ∷ s)

-- `parse::<u64>` of a text of digits.
unfoldable pub parse_digits : Text → Option ℕ
parse_digits s = let n = value 0 s in if ltb n (2 ^ 64) then some n else none

unfoldable pub checked_mul : ℕ → ℕ → Option ℕ
checked_mul a b = if ltb (a * b) (2 ^ 64) then some (a * b) else none

abbrev pub numbered : Text → DurationError → Result (Unit {0}) DurationError
numbered [] e = err e
numbered (c ∷ s) e = ok tt

abbrev pub ok_or : {A : Type 0} → Option A → DurationError → Result A DurationError
ok_or (some a) e = ok a
ok_or none e = err e

unfoldable pub in_seconds : ℕ → Text → Result (Option ℕ) DurationError
in_seconds n suffix =
    if same_text suffix (codes "s")
    then ok (some n)
    else if same_text suffix (codes "m")
    then ok (checked_mul n 60)
    else if same_text suffix (codes "h")
    then ok (checked_mul n 3600)
    else if same_text suffix (codes "d")
    then ok (checked_mul n 86400)
    else err (unknown_unit suffix)

-- The seconds of the duration.
unfoldable pub parse_duration : Text → Result ℕ DurationError
parse_duration text = do
  let s = trim text
  (digits, suffix) ← ok_or (split_digits s) (missing_unit s)
  numbered digits (missing_number s)
  n ← ok_or (parse_digits digits) (invalid_number s)
  product ← in_seconds n suffix
  seconds ← ok_or product too_large
  if seconds == 0 then err zero_duration else ok seconds

unfoldable pub format_duration : ℕ → Text
format_duration secs =
    if secs == 0
    then codes "0s"
    else if secs % 86400 == 0
    then decimal (secs / 86400) ++ codes "d"
    else if secs % 3600 == 0
    then decimal (secs / 3600) ++ codes "h"
    else if secs % 60 == 0
    then decimal (secs / 60) ++ codes "m"
    else decimal secs ++ codes "s"
