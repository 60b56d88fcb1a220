-- ===== src/Ltl/Violations.antt =====
-- What violations of lib/bombadil-ltl/src/eval.rs look like: a violated `always` wraps a violation
-- once, however many steps it was carried through, and a thunk's state reaches every state of it.
use bombadil.Common.{
  Bool, true, false, Option, some, List, [], ◌∷◌, ◌++◌, map, ◌≡◌, refl, ap, Bool-cases, inl, inr,
}
use mathlib.Core.List.{map-append}
use bombadil.Ltl.Domain.{Domain}
use bombadil.Ltl.Formula.{Formula}
use bombadil.Ltl.Violation.{Violation}
use bombadil.Ltl.Value.{Value, Residual}
use bombadil.Ltl.Combine.{peel, peel_time, and_always_value, evaluate_and_always, is_over}
use bombadil.Ltl.Attach.{attach_to_violation}

module _ {D : Domain} where
  abbrev is_always : Violation D → Bool
  is_always (Violation.always _ _ _ _ _) = true
  is_always _ = false

  is_always-peel : (v : Violation D) → is_always (peel v) ≡ false
  unfolding peel
  is_always-peel (Violation.false_at _ _ _) = refl
  is_always-peel (Violation.eventually _ _) = refl
  is_always-peel (Violation.always v _ _ _ _) = is_always-peel v
  is_always-peel (Violation.and _ _) = refl
  is_always-peel (Violation.or _ _) = refl
  is_always-peel (Violation.implies _ _ _) = refl

  -- The value is no violation, or it wraps `f` once, from `start` to `end`, and can be continued.
  abbrev pub WrapsOnce : Formula D → D.Time → Option D.Time → Value D → Type 0
  WrapsOnce f start end (Value.true_with _) = Unit
  WrapsOnce f start end (Value.residual _) = Unit
  WrapsOnce f start end (Value.false_with v c) =
      (inner : Violation D) × (time : D.Time) × (r : Residual D) × (v
        ≡ Violation.always inner f start end time)
      × (is_always inner ≡ false)
      × (c ≡ some r)

  module _ (f : Formula D) (start : D.Time) (end : Option D.Time) (onset time : D.Time) where
    and_always_value-WrapsOnce :
        (l r : Value D) → WrapsOnce f start end (and_always_value f start end onset time l r)
    unfolding and_always_value
    and_always_value-WrapsOnce (Value.true_with _) (Value.true_with _) = tt
    and_always_value-WrapsOnce (Value.true_with _) (Value.residual _) = tt
    and_always_value-WrapsOnce (Value.true_with _) (Value.false_with v _) =
        (peel v, peel_time time v, _, refl, is_always-peel v, refl)
    and_always_value-WrapsOnce (Value.residual _) (Value.true_with _) = tt
    and_always_value-WrapsOnce (Value.residual _) (Value.residual _) = tt
    and_always_value-WrapsOnce (Value.residual _) (Value.false_with v _) =
        (peel v, peel_time time v, _, refl, is_always-peel v, refl)
    and_always_value-WrapsOnce (Value.false_with v _) r =
        (peel v, onset, _, refl, is_always-peel v, refl)

    -- A violation that a carried `always` reports wraps its subformula exactly once, with the
    -- operator's own start and end, and it leaves a continuation; whatever the values of the
    -- subformula's residual and of the rest are.
    pub evaluate_and_always-WrapsOnce :
        (l r : Value D) → WrapsOnce f start end (evaluate_and_always f start end onset time l r)
    unfolding evaluate_and_always
    evaluate_and_always-WrapsOnce l r = elim (Bool-cases (is_over D end time)) [
      | inl e ↦ rw e tt
      | inr e ↦ rw e (and_always_value-WrapsOnce l r)
    ]

  -- The states that a violation shows, from left to right.
  unfoldable pub states : Violation D → List D.State
  states (Violation.false_at _ _ state) = state ∷ []
  states (Violation.eventually _ _) = []
  states (Violation.always v _ _ _ _) = states v
  states (Violation.and l r) = states l ++ states r
  states (Violation.or l r) = states l ++ states r
  states (Violation.implies _ r state) = state ∷ states r

  -- The state that a thunk has read is merged into every state of a violation, each once, and none
  -- is added or dropped.
  pub states-attach_to_violation :
      (v : Violation D) (resolved : D.State)
      → states (attach_to_violation v resolved) ≡ map (λ s. D.merge s resolved) (states v)
  unfolding states attach_to_violation
  states-attach_to_violation (Violation.false_at _ _ _) resolved = refl
  states-attach_to_violation (Violation.eventually _ _) resolved = refl
  states-attach_to_violation (Violation.always v _ _ _ _) resolved =
      states-attach_to_violation v resolved
  states-attach_to_violation (Violation.and l r) resolved =
      simp
        (states-attach_to_violation l resolved, states-attach_to_violation r resolved, map-append)
  states-attach_to_violation (Violation.or l r) resolved =
      simp
        (states-attach_to_violation l resolved, states-attach_to_violation r resolved, map-append)
  states-attach_to_violation (Violation.implies _ r s) resolved =
      ap (D.merge s resolved ∷◌) (states-attach_to_violation r resolved)
