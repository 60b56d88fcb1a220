-- ===== src/Cli/Durations/RoundTrip.antt =====
-- What lib/bombadil-cli/src/duration.rs parses, and that it reads back what it prints.
use bombadil.Common.{
  ℕ, ◌*◌, ◌/◌, ◌%◌, ◌^◌, ◌<◌, true, false, inl, inr, Option, some, [], ◌∷◌, ◌++◌, ◌≡◌, ◌≢◌, refl,
  ◌==◌, lt→ltb, Bool-cases, arith, All,
}
use bombadil.Common.Text.{
  Text, same_text, is_digit, is_whitespace, value, decimal, AreDigits, trim-black, value-decimal,
  decimal-AreDigits, decimal-ne-nil,
}
use bombadil.Common.Result.{Result, ok}
use bombadil.Cli.Durations.{
  DurationError, split_digits, parse_digits, checked_mul, in_seconds, parse_duration,
  format_duration,
}

split_digits-append :
    (s : Text) (c : ℕ)
    → AreDigits s
    → is_digit c ≡ false
    → split_digits (s ++ c ∷ []) ≡ some (s, c ∷ [])
unfolding split_digits
split_digits-append [] c h e = rw e refl
split_digits-append (d ∷ s) c h e = rw (h.0, split_digits-append s c (h.1) e) refl

digit_black : (c : ℕ) → is_digit c ≡ true → is_whitespace c ≡ false
unfolding is_digit is_whitespace
digit_black c h = ground (arith, h)

append_black :
    (s : Text) (c : ℕ)
    → AreDigits s
    → is_whitespace c ≡ false
    → All (λ d. is_whitespace d ≡ false) (s ++ c ∷ [])
append_black [] c h e = (e, tt)
append_black (d ∷ s) c h e = (digit_black d (h.0), append_black s c (h.1) e)

-- Digits with a unit that gives a positive number of seconds.
parse_number :
    (s : Text) (c secs : ℕ)
    → s ≢ []
    → AreDigits s
    → value 0 s < 2 ^ 64
    → is_digit c ≡ false
    → is_whitespace c ≡ false
    → in_seconds (value 0 s) (c ∷ []) ≡ ok (some secs)
    → 0 < secs
    → parse_duration (s ++ c ∷ []) ≡ ok secs
unfolding parse_duration parse_digits
parse_number [] c secs ne ds fits nd nw e pos = absurd (ne refl)
parse_number (d ∷ s) c secs ne ds fits nd nw e pos =
    rw
      (
        trim-black (d ∷ s ++ c ∷ []) (append_black (d ∷ s) c ds nw),
        split_digits-append (d ∷ s) c ds nd,
        lt→ltb (value 0 (d ∷ s)) (2 ^ 64) fits,
        e,
      )
      (ground (arith, pos))

parse_unit :
    (n c secs : ℕ)
    → n < 2 ^ 64
    → is_digit c ≡ false
    → is_whitespace c ≡ false
    → in_seconds n (c ∷ []) ≡ ok (some secs)
    → 0 < secs
    → parse_duration (decimal n ++ c ∷ []) ≡ ok secs
parse_unit n c secs fits nd nw e pos =
    let same : value 0 (decimal n) ≡ n = value-decimal n in
    parse_number (decimal n) c secs (decimal-ne-nil n) (decimal-AreDigits n) (rw same fits) nd nw
      (rw same e) pos

checked_mul-exact :
    (a b secs : ℕ)
    → a * b ≡ secs
    → secs < 2 ^ 64
    → ◌≡◌ {A = Result (Option ℕ) DurationError} (ok (checked_mul a b)) (ok (some secs))
unfolding checked_mul
checked_mul-exact a b secs e h = rw (e, lt→ltb secs (2 ^ 64) h) refl

-- A positive duration that is printed is parsed as the same seconds.
pub parse_duration-format_duration :
    (secs : ℕ) → 0 < secs → secs < 2 ^ 64 → parse_duration (format_duration secs) ≡ ok secs
unfolding format_duration in_seconds is_digit is_whitespace same_text
parse_duration-format_duration secs pos fits = elim (Bool-cases (secs == 0)) [
  | inl z ↦ absurd (ground (arith, z, pos))
  | inr z ↦ rw z (elim (Bool-cases (secs % 86400 == 0)) [
    | inl d ↦ rw d (
        parse_unit (secs / 86400) b'd' secs (omega arith) refl refl
          (checked_mul-exact (secs / 86400) 86400 secs (ground (arith, d)) fits) pos)
    | inr d ↦ rw d (elim (Bool-cases (secs % 3600 == 0)) [
      | inl h ↦ rw h (
          parse_unit (secs / 3600) b'h' secs (omega arith) refl refl
            (checked_mul-exact (secs / 3600) 3600 secs (ground (arith, h)) fits) pos)
      | inr h ↦ rw h (elim (Bool-cases (secs % 60 == 0)) [
        | inl m ↦ rw m (
            parse_unit (secs / 60) b'm' secs (omega arith) refl refl
              (checked_mul-exact (secs / 60) 60 secs (ground (arith, m)) fits) pos)
        | inr m ↦ rw m (parse_unit secs b's' secs fits refl refl refl pos)
      ])
    ])
  ])
]
