-- ===== src/Schema/Agree.antt =====
-- How the additions and the difference of times of lib/bombadil-schema/src/schema.rs agree.
use bombadil.Common.{
  ℕ, ◌+◌, ◌-◌, ◌^◌, ◌<◌, ◌≤◌, Option, none, some, ◌≡◌, ltb, inl, inr, arith, Bool-cases,
}
use bombadil.Common.Result.{ok}
use bombadil.Schema.Time.{Duration, as_micros, from_micros, add, checked_add, duration_since}

-- What a checked sum promises: it is the wrapping one and its difference gives the duration back, in
-- whole microseconds; or there is none, and the sum does not fit.
abbrev pub Agrees : ℕ → Duration → Option ℕ → Type 0
Agrees time duration none = 2 ^ 64 ≤ time + as_micros duration
Agrees time duration (some later) =
    (later ≡ add time duration)
    × (later < 2 ^ 64)
    × (duration_since later time ≡ ok (from_micros (as_micros duration)))

duration_since-sum : (time m : ℕ) → duration_since (time + m) time ≡ ok (from_micros m)
unfolding duration_since
duration_since-sum time m = ground arith

add-exact :
    (time : ℕ) (d : Duration) → time + as_micros d < 2 ^ 64 → time + as_micros d ≡ add time d
unfolding add
add-exact time d h = ground (arith, h)

-- A checked sum of a time and a duration is the wrapping sum and the difference to it is the
-- duration in whole microseconds, or there is no checked sum and the true sum is beyond 64 bits.
pub checked_add-Agrees :
    (time : ℕ) (duration : Duration) → Agrees time duration (checked_add time duration)
unfolding checked_add
checked_add-Agrees time duration = elim (Bool-cases (ltb (2 ^ 64 - 1) (as_micros duration))) [
  | inl e ↦ rw e (ground (arith, e))
  | inr e ↦ rw e (elim (Bool-cases (ltb (time + as_micros duration) (2 ^ 64))) [
    | inl b ↦
        let fits : time + as_micros duration < 2 ^ 64 = ground (arith, b) in
        rw b (add-exact time duration fits, fits, duration_since-sum time (as_micros duration))
    | inr b ↦ rw b (ground (arith, b))
  ])
]
