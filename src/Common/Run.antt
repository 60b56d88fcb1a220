-- ===== src/Common/Run.antt =====
-- Computations that run in a mutable host, may fail, and recur on fuel. `err` keeps the host: what
-- was changed before the failure stays changed. `out_of_fuel` is no result of the program; it marks
-- a recursion that the fuel does not cover.
use mathlib.Core.Path.{◌≡◌, refl, subst}
use mathlib.Core.Bool.{Bool, true, false}
use bombadil.Common.Tests.{if◌then◌else◌}
use mathlib.Core.Option.{Option, none, some}
use mathlib.Core.List.{List, ◌∷◌}

pub data Run (W E A : Type 0) : Type 0 where
  ok : A → W → Run W E A
  err : E → W → Run W E A
  out_of_fuel : Run W E A

abbrev pub and_then : {W E A B : Type 0} → Run W E A → (A → W → Run W E B) → Run W E B
and_then (ok a w) f = f a w
and_then (err e w) f = err e w
and_then out_of_fuel f = out_of_fuel

-- A computation in the host `W` with errors `E`.
abbrev pub Comp : Type 0 → Type 0 → Type 0 → Type 0
Comp W E A = W → Run W E A

abbrev pub return : {W E A : Type 0} → A → Comp W E A
return a w = ok a w

infixl 5 ◌>>=◌
abbrev pub ◌>>=◌ : {W E A B : Type 0} → Comp W E A → (A → Comp W E B) → Comp W E B
◌>>=◌ m f w = and_then (m w) f

-- From the host `w` the computation returns, with a result that satisfies `P`.
pub record Yields {W E A : Type 0} (m : Comp W E A) (P : A → Type 0) (w : W) : Type 0 where
  pub value : A
  pub host : W
  pub runs : m w ≡ ok value host
  pub meets : P value

-- From every host.
abbrev pub Returns : {W E A : Type 0} → Comp W E A → (A → Type 0) → Type 0
Returns m P = (w : _) → Yields m P w

module _ {W E A : Type 0} where
  pub return-Returns : (a : A) (P : A → Type 0) → P a → Returns {W = W} {E = E} (return a) P
  return-Returns a P p w = record { value = a; host = w; runs = refl; meets = p }

  pub >>=-Returns :
      {B : Type 0} (m : Comp W E A) (f : A → Comp W E B) (P : A → Type 0) (Q : B → Type 0)
      → Returns m P
      → ((a : A) → P a → Returns (f a) Q)
      → Returns (m >>= f) Q
  >>=-Returns m f P Q hm hf w =
      let y = hm w in
      let z = hf y.value y.meets y.host in
      record { value = z.value; host = z.host; runs = rw y.runs z.runs; meets = z.meets }

infixl 5 ◌>>◌
abbrev pub ◌>>◌ : {W E A B : Type 0} → Comp W E A → Comp W E B → Comp W E B
m >> n = m >>= λ _. n

abbrev pub fail : {W E A : Type 0} → E → Comp W E A
fail e w = err e w

-- The host holds what was sent so far, the latest first.
abbrev pub emit : {O E : Type 0} → O → Comp (List O) E (Unit {0})
emit o w = ok tt (o ∷ w)

-- What an operation outside of the program answers: its value, or `none` for a failure, which is
-- raised as `e`.
abbrev pub expect : {W E A : Type 0} → Option A → E → Comp W E A
expect (some a) e w = ok a w
expect none e w = err e w

-- The error of a computation that has failed.
abbrev pub failure : {W E A : Type 0} → Run W E A → Option E
failure (ok a w) = none
failure (err e w) = some e
failure out_of_fuel = none

-- Where the computation has returned, its value and the host satisfy `Q`.
abbrev pub Ensures : {W E A : Type 0} → (A → W → Type 0) → Run W E A → Type 0
Ensures Q (ok a w) = Q a w
Ensures Q (err e w) = Unit
Ensures Q out_of_fuel = Unit

module _ {W E A : Type 0} (Q : A → W → Type 0) where
  pub Ensures-expect :
      {B : Type 0} (o : Option B) (e : E) (f : B → Comp W E A) (w : W)
      → ((b : B) → o ≡ some b → Ensures Q (f b w))
      → Ensures Q ((expect o e >>= f) w)
  Ensures-expect none e f w h = tt
  Ensures-expect (some b) e f w h = h b refl

  pub Ensures-if :
      (b : Bool) (m n : Comp W E A) (w : W)
      → (b ≡ true → Ensures Q (m w))
      → (b ≡ false → Ensures Q (n w))
      → Ensures Q ((if b then m else n) w)
  Ensures-if true m n w hm hn = hm refl
  Ensures-if false m n w hm hn = hn refl

  pub Ensures-map :
      (R : A → W → Type 0) (r : Run W E A)
      → ((a : A) (w : W) → Q a w → R a w)
      → Ensures Q r
      → Ensures R r
  Ensures-map R (ok a w) h q = h a w q
  Ensures-map R (err _ _) h q = tt
  Ensures-map R out_of_fuel h q = tt

  pub Ensures-ok : (r : Run W E A) (a : A) (w : W) → r ≡ ok a w → Ensures Q r → Q a w
  Ensures-ok r a w e h = subst (Ensures Q) e h

module _ {W E A B : Type 0} (R : A → W → Type 0) (Q : B → W → Type 0) where
  pub Ensures-bind :
      (m : Comp W E A) (f : A → Comp W E B) (w : W)
      → Ensures R (m w)
      → ((a : A) (w' : W) → R a w' → Ensures Q (f a w'))
      → Ensures Q ((m >>= f) w)
  Ensures-bind m f w h k = passed (m w) h
    where
      passed : (r : Run W E A) → Ensures R r → Ensures Q (and_then r f)
      passed (ok a w') hr = k a w' hr
      passed (err _ _) hr = tt
      passed out_of_fuel hr = tt

-- The computation ends: it returns, and its value and the host satisfy `Q`, or it fails, and leaves
-- a host that satisfies `F`.
abbrev pub Ends : {W E A : Type 0} → (A → W → Type 0) → (W → Type 0) → Run W E A → Type 0
Ends Q F (ok a w) = Q a w
Ends Q F (err e w) = F w
Ends Q F out_of_fuel = ⊥

module _ {W E A : Type 0} (Q : A → W → Type 0) (F : W → Type 0) where
  pub Ends-expect :
      {B : Type 0} (o : Option B) (e : E) (f : B → Comp W E A) (w : W)
      → F w
      → ((b : B) → Ends Q F (f b w))
      → Ends Q F ((expect o e >>= f) w)
  Ends-expect none e f w g h = g
  Ends-expect (some b) e f w g h = h b

  pub Ends-map :
      (R : A → W → Type 0) (G : W → Type 0) (r : Run W E A)
      → ((a : A) (w : W) → Q a w → R a w)
      → ((w : W) → F w → G w)
      → Ends Q F r
      → Ends R G r
  Ends-map R G (ok a w) h k q = h a w q
  Ends-map R G (err _ w) h k q = k w q
  Ends-map R G out_of_fuel h k q = elim q [ ]

  pub Ends-if :
      (b : Bool) (m n : Comp W E A) (w : W)
      → (b ≡ true → Ends Q F (m w))
      → (b ≡ false → Ends Q F (n w))
      → Ends Q F ((if b then m else n) w)
  Ends-if true m n w hm hn = hm refl
  Ends-if false m n w hm hn = hn refl

module _ {W E A B : Type 0} (R : A → W → Type 0) (Q : B → W → Type 0) (F : W → Type 0) where
  pub Ends-bind :
      (m : Comp W E A) (f : A → Comp W E B) (w : W)
      → Ends R F (m w)
      → ((a : A) (w' : W) → R a w' → Ends Q F (f a w'))
      → Ends Q F ((m >>= f) w)
  Ends-bind m f w h k = passed (m w) h
    where
      passed : (r : Run W E A) → Ends R F r → Ends Q F (and_then r f)
      passed (ok a w') hr = k a w' hr
      passed (err _ _) hr = hr
      passed out_of_fuel hr = elim hr [ ]
