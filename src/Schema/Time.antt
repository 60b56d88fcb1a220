-- ===== src/Schema/Time.antt =====
-- The times of lib/bombadil-schema/src/schema.rs, in microseconds since the epoch, and the printed
-- durations of lib/bombadil-schema/src/duration.rs.
use bombadil.Common.{
  ℕ, ◌+◌, ◌-◌, ◌*◌, ◌/◌, ◌%◌, ◌^◌, ◌<◌, Bool, Option, none, some, [], ◌∷◌, ◌++◌, ltb, leb,
  if◌then◌else◌,
}
use bombadil.Common.Text.{Text, decimal}
use bombadil.Common.Result.{Result, ok, err}

-- `std::time::Duration`: seconds and the nanoseconds of the last one.
pub record Duration : Type 0 where
  pub secs : ℕ
  pub nanos : ℕ

abbrev pub IsDuration : Duration → Type 0
IsDuration d = (d.secs < 2 ^ 64) × (d.nanos < 10 ^ 9)

abbrev pub as_micros : Duration → ℕ
as_micros d = d.secs * 1000000 + d.nanos / 1000

abbrev pub as_millis : Duration → ℕ
as_millis d = d.secs * 1000 + d.nanos / 1000000

abbrev pub subsec_millis : Duration → ℕ
subsec_millis d = d.nanos / 1000000

abbrev pub from_micros : ℕ → Duration
from_micros micros = record { secs = micros / 1000000; nanos = micros % 1000000 * 1000 }

-- `Add`, whose sum wraps.
unfoldable pub add : ℕ → Duration → ℕ
add time duration = (time + as_micros duration % 2 ^ 64) % 2 ^ 64

unfoldable pub checked_add : ℕ → Duration → Option ℕ
checked_add time duration =
    if ltb (2 ^ 64 - 1) (as_micros duration)
    then none
    else if ltb (time + as_micros duration) (2 ^ 64)
    then some (time + as_micros duration)
    else none

unfoldable pub duration_since : ℕ → ℕ → Result Duration Duration
duration_since time earlier =
    if leb earlier time
    then ok (from_micros (time - earlier))
    else err (from_micros (earlier - time))

-- `{:02}` and `{:03}`.
unfoldable pub padded2 : ℕ → Text
padded2 n = if ltb n 10 then b'0' ∷ decimal n else decimal n

unfoldable pub padded3 : ℕ → Text
padded3 n =
    if ltb n 10 then b'0' ∷ b'0' ∷ decimal n else if ltb n 100 then b'0' ∷ decimal n else decimal n

unfoldable pub format_duration : Duration → Bool → Text
format_duration duration include_millis =
    let millis_part = if include_millis then b'.' ∷ padded3 (subsec_millis duration) else [] in
    let hours = duration.secs / 3600 in
    let minutes = duration.secs % 3600 / 60 in
    let seconds = duration.secs % 60 in
    if ltb 0 hours
    then padded2 hours ++ b':' ∷ padded2 minutes ++ b':' ∷ padded2 seconds ++ millis_part
    else padded2 minutes ++ b':' ∷ padded2 seconds ++ millis_part
