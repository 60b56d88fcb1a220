-- ===== src/Ltl/Semantics/Nnf.antt =====
-- `Syntax::nnf` of lib/bombadil-ltl/src/syntax.rs keeps the meaning of a formula. The meaning of a
-- formula as it is written is given here, without a negation normal form. At the last state both
-- `next p` and `next (not p)` hold, so that `next` is left out of what is negated.
use mathlib.Core.Path.{fun_ext}
use bombadil.Common.{
  ℕ, zero, suc, Bool, true, false, not as negate, ◌&&◌, ◌||◌, none, List, ◌≡◌, refl, ap, ◌∙◌, arith,
  if◌then◌else◌, length,
}
use bombadil.Common.Run.{Returns}
use bombadil.Ltl.Domain.{Domain}
use bombadil.Ltl.Formula.{Formula}
use bombadil.Ltl.Syntax.{Syntax, go, nnf}
use bombadil.Ltl.Eval.{EvaluateThunk}
use bombadil.Ltl.Semantics.{Meaning, globally, finally, holds, Fits}
use bombadil.Ltl.Semantics.Evaluate.{Answers}
use bombadil.Ltl.Semantics.Trace.{verdict, verdict-holds}

-- What each function returns at each position, as it is written.
abbrev pub Thunks : Domain → Type 0
Thunks D = ℕ → D.Function → Syntax D

-- The formula that a thunk stands for, as lib/bombadil/src/specification/verifier.rs makes it.
unfoldable pub thunk_formula : {D : Domain} → Syntax D → Bool → Formula D
unfolding nnf
thunk_formula syntax negated = nnf (if negated then Syntax.not syntax else syntax)

abbrev pub thunk_meaning : {D : Domain} → Thunks D → Meaning D
thunk_meaning thunks i function negated = thunk_formula (thunks i function) negated

abbrev flip : Bool → Bool → Bool
flip negated b = if negated then negate b else b

finally-not :
    (p : ℕ → ℕ → Bool) (i n : ℕ) → finally (λ j m. negate (p j m)) i n ≡ negate (globally p i n)
unfolding finally globally
finally-not p i zero = refl
finally-not p i (suc n) = ground (arith, finally-not p (suc i) n)

globally-not :
    (p : ℕ → ℕ → Bool) (i n : ℕ) → globally (λ j m. negate (p j m)) i n ≡ negate (finally p i n)
unfolding finally globally
globally-not p i zero = refl
globally-not p i (suc n) = ground (arith, globally-not p (suc i) n)

module _ {D : Domain} (thunks : Thunks D) where
  -- The fuel bounds how deep thunks return thunks.
  unfoldable pub syntax_holds : ℕ → Syntax D → ℕ → ℕ → Bool
  unfolding globally finally
  syntax_holds fuel (Syntax.pure value pretty) i n = value
  syntax_holds zero (Syntax.thunk function) i n = false
  syntax_holds (suc fuel) (Syntax.thunk function) i n = syntax_holds fuel (thunks i function) i n
  syntax_holds fuel (Syntax.not s) i n = negate (syntax_holds fuel s i n)
  syntax_holds fuel (Syntax.and l r) i n = syntax_holds fuel l i n && syntax_holds fuel r i n
  syntax_holds fuel (Syntax.or l r) i n = syntax_holds fuel l i n || syntax_holds fuel r i n
  syntax_holds fuel (Syntax.implies l r) i n =
      negate (syntax_holds fuel l i n) || syntax_holds fuel r i n
  syntax_holds fuel (Syntax.next s) i zero = true
  syntax_holds fuel (Syntax.next s) i (suc n) = syntax_holds fuel s (suc i) n
  syntax_holds fuel (Syntax.always s bound) i n = globally (syntax_holds fuel s) i n
  syntax_holds fuel (Syntax.eventually s bound) i n = finally (syntax_holds fuel s) i n

  -- No operator has a time bound, there is no `next`, and thunks nest at most `fuel` deep.
  abbrev pub IsPlain : ℕ → Syntax D → Type 0
  IsPlain fuel (Syntax.pure value pretty) = Unit
  IsPlain zero (Syntax.thunk function) = ⊥
  IsPlain (suc fuel) (Syntax.thunk function) = (i : ℕ) → IsPlain fuel (thunks i function)
  IsPlain fuel (Syntax.not s) = IsPlain fuel s
  IsPlain fuel (Syntax.and l r) = IsPlain fuel l × IsPlain fuel r
  IsPlain fuel (Syntax.or l r) = IsPlain fuel l × IsPlain fuel r
  IsPlain fuel (Syntax.implies l r) = IsPlain fuel l × IsPlain fuel r
  IsPlain fuel (Syntax.next s) = ⊥
  IsPlain fuel (Syntax.always s bound) = (bound ≡ none) × IsPlain fuel s
  IsPlain fuel (Syntax.eventually s bound) = (bound ≡ none) × IsPlain fuel s

  abbrev Preserves : ℕ → Syntax D → Bool → Type 0
  Preserves fuel s negated =
      (i n : ℕ)
      → holds (thunk_meaning thunks) fuel (go s negated) i n
        ≡ flip negated (syntax_holds fuel s i n)

  -- The inner function of `nnf` gives a formula that says, at every position of every trace, what the
  -- written one says, or its negation if `negated`. The written formula and what thunks return have
  -- no `next` and no time bounds, and thunks nest at most `fuel` deep.
  pub go-holds :
      (fuel : ℕ) (s : Syntax D) (negated : Bool) → IsPlain fuel s → Preserves fuel s negated
  unfolding go holds syntax_holds thunk_formula
  go-holds fuel (Syntax.pure value _) true h i n = refl
  go-holds fuel (Syntax.pure value _) false h i n = refl
  go-holds zero (Syntax.thunk _) negated h i n = absurd h
  go-holds (suc fuel) (Syntax.thunk function) true h i n =
      go-holds fuel (thunks i function) true (h i) i n
  go-holds (suc fuel) (Syntax.thunk function) false h i n =
      go-holds fuel (thunks i function) false (h i) i n
  go-holds fuel (Syntax.not s) true h i n = ground (arith, go-holds fuel s false h i n)
  go-holds fuel (Syntax.not s) false h i n = go-holds fuel s true h i n
  go-holds fuel (Syntax.and l r) true h i n =
      ground (arith, go-holds fuel l true h.0 i n, go-holds fuel r true h.1 i n)
  go-holds fuel (Syntax.and l r) false h i n =
      ground (arith, go-holds fuel l false h.0 i n, go-holds fuel r false h.1 i n)
  go-holds fuel (Syntax.or l r) true h i n =
      ground (arith, go-holds fuel l true h.0 i n, go-holds fuel r true h.1 i n)
  go-holds fuel (Syntax.or l r) false h i n =
      ground (arith, go-holds fuel l false h.0 i n, go-holds fuel r false h.1 i n)
  go-holds fuel (Syntax.implies l r) true h i n =
      ground (arith, go-holds fuel l false h.0 i n, go-holds fuel r true h.1 i n)
  go-holds fuel (Syntax.implies l r) false h i n =
      ground (arith, go-holds fuel l false h.0 i n, go-holds fuel r false h.1 i n)
  go-holds fuel (Syntax.next s) negated h i n = absurd h
  go-holds fuel (Syntax.always s _) true h i n =
      ap (λ p. finally p i n) (fun_ext (λ j. fun_ext (go-holds fuel s true h.1 j)))
      ∙ finally-not (syntax_holds fuel s) i n
  go-holds fuel (Syntax.always s _) false h i n =
      ap (λ p. globally p i n) (fun_ext (λ j. fun_ext (go-holds fuel s false h.1 j)))
  go-holds fuel (Syntax.eventually s _) true h i n =
      ap (λ p. globally p i n) (fun_ext (λ j. fun_ext (go-holds fuel s true h.1 j)))
      ∙ globally-not (syntax_holds fuel s) i n
  go-holds fuel (Syntax.eventually s _) false h i n =
      ap (λ p. finally p i n) (fun_ext (λ j. fun_ext (go-holds fuel s false h.1 j)))

  go-Fits :
      (fuel : ℕ) (s : Syntax D) (negated : Bool)
      → IsPlain fuel s
      → Fits (thunk_meaning thunks) fuel (go s negated)
  unfolding go thunk_formula
  go-Fits fuel (Syntax.pure value _) negated h = tt
  go-Fits zero (Syntax.thunk _) negated h = absurd h
  go-Fits (suc fuel) (Syntax.thunk function) true h =
      λ i. go-Fits fuel (thunks i function) true (h i)
  go-Fits (suc fuel) (Syntax.thunk function) false h =
      λ i. go-Fits fuel (thunks i function) false (h i)
  go-Fits fuel (Syntax.not s) negated h = go-Fits fuel s (negate negated) h
  go-Fits fuel (Syntax.and l r) true h = (go-Fits fuel l true h.0, go-Fits fuel r true h.1)
  go-Fits fuel (Syntax.and l r) false h = (go-Fits fuel l false h.0, go-Fits fuel r false h.1)
  go-Fits fuel (Syntax.or l r) true h = (go-Fits fuel l true h.0, go-Fits fuel r true h.1)
  go-Fits fuel (Syntax.or l r) false h = (go-Fits fuel l false h.0, go-Fits fuel r false h.1)
  go-Fits fuel (Syntax.implies l r) true h = (go-Fits fuel l false h.0, go-Fits fuel r true h.1)
  go-Fits fuel (Syntax.implies l r) false h = (go-Fits fuel l false h.0, go-Fits fuel r false h.1)
  go-Fits fuel (Syntax.next s) negated h = absurd h
  go-Fits fuel (Syntax.always s _) true h = (h.0, go-Fits fuel s true h.1)
  go-Fits fuel (Syntax.always s _) false h = (h.0, go-Fits fuel s false h.1)
  go-Fits fuel (Syntax.eventually s _) true h = (h.0, go-Fits fuel s true h.1)
  go-Fits fuel (Syntax.eventually s _) false h = (h.0, go-Fits fuel s false h.1)

  -- A test of the negation normal form of a formula returns, and its verdict is what the formula
  -- says as it is written. The formula and what thunks return have no `next` and no time bounds,
  -- thunks nest at most `fuel` deep, and at each position every thunk returns without an error the
  -- negation normal form of what `thunks` gives it, negated where the formula asks for that.
  pub verdict-nnf :
      {W E : Type 0} (evaluate_thunk : ℕ → EvaluateThunk D W E)
      (answers : Answers evaluate_thunk (thunk_meaning thunks)) (fuel : ℕ) (s : Syntax D)
      (time : D.Time) (times : List D.Time)
      → IsPlain fuel s
      → Returns
          (verdict evaluate_thunk fuel (nnf s) time times)
          (λ b. b ≡ syntax_holds fuel s 0 (length times))
  unfolding nnf
  verdict-nnf evaluate_thunk answers fuel s time times h w =
      let y =
        verdict-holds evaluate_thunk fuel (thunk_meaning thunks) answers (nnf s) time times
          (go-Fits fuel s false h) w in
      record {
        value = y.value;
        host = y.host;
        runs = y.runs;
        meets = y.meets ∙ go-holds fuel s false h 0 (length times);
      }
