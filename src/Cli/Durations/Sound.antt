-- ===== src/Cli/Durations/Sound.antt =====
-- What lib/bombadil-cli/src/duration.rs accepts.
use mathlib.Core.Path.{subst}
use bombadil.Common.{
  ℕ, ◌*◌, ◌^◌, ◌<◌, true, ◌⊎◌, inl, inr, Option, none, some, [], ◌∷◌, ◌++◌, ◌≡◌, ◌≢◌, refl, ap, ◌∙◌,
  ◌==◌, Bool-cases, if◌then◌else◌, arith,
}
use bombadil.Common.Text.{Text, codes, same_text, same_text-eq, is_digit, trim, value, AreDigits}
use bombadil.Common.Result.{Result, ok, err, ◌>>=◌, step_succeeds}
use bombadil.Cli.Durations.{
  DurationError, add_digit, split_digits, parse_digits, checked_mul, in_seconds, numbered, ok_or,
  parse_duration,
}

-- The number of seconds of a unit.
abbrev pub IsUnit : Text → ℕ → Type 0
IsUnit suffix factor =
    ((suffix ≡ codes "s") × (factor ≡ 1))
    ⊎ ((suffix ≡ codes "m") × (factor ≡ 60))
    ⊎ ((suffix ≡ codes "h") × (factor ≡ 3600))
    ⊎ ((suffix ≡ codes "d") × (factor ≡ 86400))

-- Digits and a unit, which give a positive number of seconds that fits 64 bits.
pub record Spells (s : Text) (secs : ℕ) : Type 0 where
  pub digits : Text
  pub suffix : Text
  pub factor : ℕ
  pub splits : s ≡ digits ++ suffix
  pub has_digits : digits ≢ []
  pub are_digits : AreDigits digits
  pub has_unit : IsUnit suffix factor
  pub product : secs ≡ value 0 digits * factor
  pub positive : 0 < secs
  pub fits : secs < 2 ^ 64

add_digit_sound :
    (c : ℕ) (s digits suffix : Text) (rest : Option (Text × Text))
    → is_digit c ≡ true
    → ((d t : Text) → rest ≡ some (d, t) → (s ≡ d ++ t) × AreDigits d)
    → add_digit c rest ≡ some (digits, suffix)
    → (c ∷ s ≡ digits ++ suffix) × AreDigits digits
add_digit_sound c s digits suffix none e ih h = cc
add_digit_sound c s digits suffix (some (d, t)) e ih h =
    let (p, q) = ih d t refl in
    let same : c ∷ d ≡ digits = cc h in (cc (p, h, same), subst AreDigits same (e, q))

split_digits_sound :
    (s digits suffix : Text)
    → split_digits s ≡ some (digits, suffix)
    → (s ≡ digits ++ suffix) × AreDigits digits
unfolding split_digits
split_digits_sound [] digits suffix h = cc
split_digits_sound (c ∷ s) digits suffix h = elim (Bool-cases (is_digit c)) [
  | inl e ↦ add_digit_sound c s digits suffix (split_digits s) e (split_digits_sound s) (rw e at h)
  | inr e ↦
      let plain : some ([], c ∷ s) ≡ some (digits, suffix) = rw e at h in
      let none_before : [] ≡ digits = cc plain in
      (cc (plain, none_before), subst AreDigits none_before tt)
]

abbrev IsProduct : ℕ → ℕ → ℕ → Type 0
IsProduct a b n = (n ≡ a * b) × (n < 2 ^ 64)

parse_digits_sound : (s : Text) (n : ℕ) → parse_digits s ≡ some n → (n ≡ value 0 s) × (n < 2 ^ 64)
unfolding parse_digits
parse_digits_sound s n h = ground (arith, h)

checked_mul_sound : (a b n : ℕ) → checked_mul a b ≡ some n → IsProduct a b n
unfolding checked_mul
checked_mul_sound a b n h = ground (arith, h)

in_seconds_sound :
    (n : ℕ) (suffix : Text) (secs : ℕ)
    → n < 2 ^ 64
    → in_seconds n suffix ≡ ok (some secs)
    → (factor : ℕ) × IsUnit suffix factor × IsProduct n factor secs
unfolding in_seconds
in_seconds_sound n suffix secs fits h = elim (Bool-cases (same_text suffix (codes "s"))) [
  | inl e ↦ (1, inl (same_text-eq suffix _ e, refl), ground (arith, e, h, fits))
  | inr e ↦ elim (Bool-cases (same_text suffix (codes "m"))) [
    | inl m ↦ (60, inr (inl (same_text-eq suffix _ m, refl)), product 60 (rw (e, m) at h))
    | inr m ↦ elim (Bool-cases (same_text suffix (codes "h"))) [
      | inl o ↦
          (3600, inr (inr (inl (same_text-eq suffix _ o, refl))), product 3600 (rw (e, m, o) at h))
      | inr o ↦ elim (Bool-cases (same_text suffix (codes "d"))) [
        | inl d ↦ (
          86400,
          inr (inr (inr (same_text-eq suffix _ d, refl))),
          product 86400 (rw (e, m, o, d) at h),
        )
        | inr d ↦ absurd (ground (arith, e, m, o, d, h))
      ]
    ]
  ]
]
  where
    product :
        (k : ℕ)
        → ◌≡◌ {A = Result (Option ℕ) DurationError} (ok (checked_mul n k)) (ok (some secs))
        → IsProduct n k secs
    product k p = checked_mul_sound n k secs (cc p)

ok_or_sound {ℓ} :
    {A : Type 0} {B : Type ℓ} (o : Option A) (e : DurationError) (f : A → Result B DurationError)
    (b : B)
    → (ok_or o e >>= f) ≡ ok b
    → (a : A) × (o ≡ some a) × (f a ≡ ok b)
ok_or_sound none e f b h = cc
ok_or_sound (some a) e f b h = (a, refl, h)

numbered_sound :
    {B : Type 0} (s : Text) (e : DurationError) (rest : Result B DurationError) (b : B)
    → (numbered s e >>= λ _. rest) ≡ ok b
    → (s ≢ []) × (rest ≡ ok b)
numbered_sound [] e rest b h = cc
numbered_sound (c ∷ s) e rest b h = (cc, h)

last_sound :
    (seconds secs : ℕ)
    → ◌≡◌ {A = Result ℕ DurationError}
        (if seconds == 0 then err DurationError.zero_duration else ok seconds)
        (ok secs)
    → (0 < secs) × (secs ≡ seconds)
last_sound seconds secs h = ground (arith, h)

-- Every text that is accepted spells the duration that is returned.
pub parse_duration-Spells :
    (text : Text) (secs : ℕ) → parse_duration text ≡ ok secs → Spells (trim text) secs
unfolding parse_duration
parse_duration-Spells text secs h =
    let (split, p, h1) = ok_or_sound (split_digits (trim text)) _ _ secs h in
    let (nonempty, h2) = numbered_sound (split.0) _ _ secs h1 in
    let (n, q, h3) = ok_or_sound (parse_digits (split.0)) _ _ secs h2 in
    let (o, r, h4) = step_succeeds (in_seconds n (split.1)) h3 in
    let (seconds, t, h5) = ok_or_sound o _ _ secs h4 in
    let (positive, same) = last_sound seconds secs h5 in
    let (splits, are_digits) = split_digits_sound (trim text) (split.0) (split.1) p in
    let (exact, fits) = parse_digits_sound (split.0) n q in
    let (factor, has_unit, (product, in_range)) =
      in_seconds_sound n (split.1) seconds fits (r ∙ ap ok t) in
    record {
      digits = split.0;
      suffix = split.1;
      factor = factor;
      splits = splits;
      has_digits = nonempty;
      are_digits = are_digits;
      has_unit = has_unit;
      product = cc (same, product, exact);
      positive = positive;
      fits = omega (arith, same, in_range);
    }
