-- ===== src/Bundler/Queue.antt =====
-- The imports that the loop of lib/bombadil/src/specification/bundler/mod.rs adds to its queue.
use bombadil.Common.{◌≤◌, true, List, [], ◌∷◌, ◌≡◌, sym, ◌⊎◌, inl, inr, arith, length, Bool-cases}
use mathlib.Core.Path.{subst}
use bombadil.Bundler.Keys.{ModuleKey, contains, contains-cons_cases, contains-head, contains-tail}
use bombadil.Bundler.Modules.{Setting, unprocessed}

pub unprocessed-part :
    (S : Setting) (ps is : List ModuleKey) (i : ModuleKey)
    → contains (unprocessed S ps is) i ≡ true
    → contains is i ≡ true
unfolding unprocessed
unprocessed-part S ps [] i h = h
unprocessed-part S ps (k ∷ is) i h = elim (Bool-cases (contains ps k)) [
  | inl e ↦ contains-tail i k is (unprocessed-part S ps is i (rw e at h))
  | inr e ↦ elim (contains-cons_cases i k (unprocessed S ps is) (rw e at h)) [
    | inl same ↦ subst (λ j. contains (k ∷ is) j ≡ true) (sym same) (contains-head k is)
    | inr rest ↦ contains-tail i k is (unprocessed-part S ps is i rest)
  ]
]

pub unprocessed-covers :
    (S : Setting) (ps is : List ModuleKey) (i : ModuleKey)
    → contains is i ≡ true
    → (contains ps i ≡ true) ⊎ (contains (unprocessed S ps is) i ≡ true)
unfolding unprocessed
unprocessed-covers S ps [] i h = inr h
unprocessed-covers S ps (k ∷ is) i h = elim (Bool-cases (contains ps k)) [
  | inl e ↦ rw e (elim (contains-cons_cases i k is h) [
    | inl same ↦ inl (subst (λ j. contains ps j ≡ true) (sym same) e)
    | inr rest ↦ unprocessed-covers S ps is i rest
  ])
  | inr e ↦ rw e (elim (contains-cons_cases i k is h) [
    | inl same ↦ inr (
        subst (λ j. contains (k ∷ unprocessed S ps is) j ≡ true) (sym same)
          (contains-head k (unprocessed S ps is)))
    | inr rest ↦ later (unprocessed-covers S ps is i rest)
  ])
]
  where
    later :
        (contains ps i ≡ true) ⊎ (contains (unprocessed S ps is) i ≡ true)
        → (contains ps i ≡ true) ⊎ (contains (k ∷ unprocessed S ps is) i ≡ true)
    later (inl a) = inl a
    later (inr b) = inr (contains-tail i k _ b)

pub unprocessed-short :
    (S : Setting) (ps is : List ModuleKey) → length (unprocessed S ps is) ≤ length is
unfolding unprocessed
unprocessed-short S ps [] = omega arith
unprocessed-short S ps (k ∷ is) = elim (Bool-cases (contains ps k)) [
  | inl e ↦ rw e (omega (arith, unprocessed-short S ps is))
  | inr e ↦ rw e (omega (arith, unprocessed-short S ps is))
]
