-- ===== src/Common/Text.antt =====
-- Texts as lists of their characters' codes, and the decimal numbers in them. A file that compares
-- whole texts only has the native `String` instead.
use Prim.Native.Char.{code}
use Prim.Native.String.{String}
use Prim.Native.Nat.{ℕ, zero, suc, ◌+◌, ◌-◌, ◌*◌, ◌/◌, ◌%◌, ◌<◌}
use mathlib.Core.Path.{◌≡◌, refl, ap, ◌∙◌}
use mathlib.Core.Logic.{inl, inr, ◌≢◌}
use mathlib.Core.Bool.{Bool, true, false, ◌&&◌, ◌||◌}
use mathlib.Core.List.{List, [], ◌∷◌}
use native.Mathlib.Omega.{arith}
use bombadil.Common.Tests.{ltb, leb, ◌==◌, Bool-cases, if◌then◌else◌}
use bombadil.Common.Lists.{All}

abbrev pub Text : Type 0
Text = List ℕ

abbrev pub codes : String → Text
codes String.[] = []
codes (String.◌∷◌ c s) = code c ∷ codes s

unfoldable pub same_text : Text → Text → Bool
same_text [] [] = true
same_text [] (d ∷ t) = false
same_text (c ∷ s) [] = false
same_text (c ∷ s) (d ∷ t) = (c == d) && same_text s t

-- `char::is_ascii_digit`
unfoldable pub is_digit : ℕ → Bool
is_digit c = leb b'0' c && leb c b'9'

-- `char::is_whitespace`: the characters with the property White_Space of Unicode.
unfoldable pub is_whitespace : ℕ → Bool
is_whitespace c =
    (leb 9 c && leb c 13)
    || (c == 32)
    || (c == 0x85)
    || (c == 0xA0)
    || (c == 0x1680)
    || (leb 0x2000 c && leb c 0x200A)
    || (c == 0x2028)
    || (c == 0x2029)
    || (c == 0x202F)
    || (c == 0x205F)
    || (c == 0x3000)

unfoldable pub trim_start : Text → Text
trim_start [] = []
trim_start (c ∷ s) = let rest = trim_start s in if is_whitespace c then rest else c ∷ s

abbrev ending : ℕ → Text → Text
ending c [] = if is_whitespace c then [] else c ∷ []
ending c (d ∷ s) = c ∷ d ∷ s

unfoldable pub trim_end : Text → Text
trim_end [] = []
trim_end (c ∷ s) = ending c (trim_end s)

unfoldable pub trim : Text → Text
unfolding trim_start trim_end
trim s = trim_end (trim_start s)

abbrev IsBlackText : Text → Type 0
IsBlackText = All λ c. is_whitespace c ≡ false

trim_start-black : (s : Text) → IsBlackText s → trim_start s ≡ s
unfolding trim_start
trim_start-black [] h = refl
trim_start-black (c ∷ s) h = rw (h.0) refl

trim_end-black : (s : Text) → IsBlackText s → trim_end s ≡ s
unfolding trim_end
trim_end-black [] h = refl
trim_end-black (c ∷ []) h = rw (h.0) refl
trim_end-black (c ∷ d ∷ s) h = rw (trim_end-black (d ∷ s) (h.1)) refl

-- A text without white space is not changed.
pub trim-black : (s : Text) → All (λ c. is_whitespace c ≡ false) s → trim s ≡ s
unfolding trim
trim-black s h = rw (trim_start-black s h) (trim_end-black s h)

-- The number that digits spell behind `n`.
unfoldable pub value : ℕ → Text → ℕ
value n [] = n
value n (c ∷ s) = value (n * 10 + (c - b'0')) s

-- The digits of `n` before `out`, with fuel.
unfoldable pub decimal_before : ℕ → ℕ → Text → Text
decimal_before zero n out = out
decimal_before (suc fuel) n out =
    let rest = decimal_before fuel (n / 10) ((b'0' + n % 10) ∷ out) in
    if ltb n 10 then (b'0' + n) ∷ out else rest

-- `format!("{}", n)`. A number is greater than its tenth, so `n` rounds and one are enough.
unfoldable pub decimal : ℕ → Text
unfolding decimal_before
decimal n = decimal_before (suc n) n []

value-decimal_before :
    (fuel n : ℕ) (out : Text) → n < fuel → value 0 (decimal_before fuel n out) ≡ value n out
unfolding decimal_before
value-decimal_before zero n out h = absurd (omega arith)
value-decimal_before (suc fuel) n out h = elim (Bool-cases (ltb n 10)) [
  | inl e ↦ rw e read_digit
  | inr e ↦ rw e (
      value-decimal_before fuel (n / 10) ((b'0' + n % 10) ∷ out) (ground (arith, e, h)) ∙ read_last)
]
  where
    read_digit : value 0 ((b'0' + n) ∷ out) ≡ value n out
    read_digit =
        let whole : 0 + (b'0' + n - b'0') ≡ n = omega arith in
        unfold value in ap (λ m. value m out) whole

    read_last : value (n / 10) ((b'0' + n % 10) ∷ out) ≡ value n out
    read_last =
        let whole : n / 10 * 10 + (b'0' + n % 10 - b'0') ≡ n = omega arith in
        unfold value in rw whole refl

-- The print of a number spells the number.
pub value-decimal : (n : ℕ) → value 0 (decimal n) ≡ n
unfolding decimal
value-decimal n = value-decimal_before (suc n) n [] (omega arith) ∙ (unfold value in refl)

abbrev pub AreDigits : Text → Type 0
AreDigits = All λ c. is_digit c ≡ true

decimal_before-AreDigits :
    (fuel n : ℕ) (out : Text) → AreDigits out → AreDigits (decimal_before fuel n out)
unfolding decimal_before
decimal_before-AreDigits zero n out h = h
decimal_before-AreDigits (suc fuel) n out h = elim (Bool-cases (ltb n 10)) [
  | inl e ↦ rw e (unfold is_digit in ground (arith, e), h)
  | inr e ↦ rw e (decimal_before-AreDigits fuel (n / 10) _ (unfold is_digit in ground arith, h))
]

-- A print has digits only.
pub decimal-AreDigits : (n : ℕ) → AreDigits (decimal n)
unfolding decimal
decimal-AreDigits n = decimal_before-AreDigits (suc n) n [] tt

decimal_before-ne-nil : (fuel n c : ℕ) (out : Text) → decimal_before fuel n (c ∷ out) ≢ []
unfolding decimal_before
decimal_before-ne-nil zero n c out = cc
decimal_before-ne-nil (suc fuel) n c out = elim (Bool-cases (ltb n 10)) [
  | inl e ↦ rw e (cc)
  | inr e ↦ rw e (decimal_before-ne-nil fuel (n / 10) (b'0' + n % 10) (c ∷ out))
]

-- A print is not empty.
pub decimal-ne-nil : (n : ℕ) → decimal n ≢ []
unfolding decimal decimal_before
decimal-ne-nil n = elim (Bool-cases (ltb n 10)) [
  | inl e ↦ rw e (cc)
  | inr e ↦ rw e (decimal_before-ne-nil n (n / 10) (b'0' + n % 10) [])
]

-- Texts that are the same by the test are equal.
pub same_text-eq : (s t : Text) → same_text s t ≡ true → s ≡ t
unfolding same_text
same_text-eq [] [] h = refl
same_text-eq [] (d ∷ t) h = cc
same_text-eq (c ∷ s) [] h = cc
same_text-eq (c ∷ s) (d ∷ t) h = ground (arith, h, same_text-eq s t)
