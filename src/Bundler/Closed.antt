-- ===== src/Bundler/Closed.antt =====
-- Sets of processed modules that are closed under imports, and what is left to be done.
use bombadil.Common.{
  ℕ, ◌+◌, ◌≤◌, true, false, Option, none, some, List, [], ◌∷◌, ◌≡◌, ◌⊎◌, inl, inr, arith, length,
  Bool-cases, if◌then◌else◌,
}
use mathlib.Core.Path.{subst}
use bombadil.Common.Text.{Text}
use bombadil.Common.Result.{Result}
use bombadil.Bundler.Keys.{ModuleKey, contains, contains-cons_cases, contains-head, contains-tail}
use bombadil.Bundler.Modules.{ImportType, BundlerError, Setting, analyse}

-- No key stands twice.
abbrev pub Distinct : List ModuleKey → Type 0
Distinct [] = Unit
Distinct (k ∷ keys) = (contains keys k ≡ false) × Distinct keys

-- The key that was processed first.
abbrev pub oldest : List ModuleKey → Option ModuleKey
oldest [] = none
oldest (k ∷ []) = some k
oldest (k ∷ j ∷ keys) = oldest (j ∷ keys)

module _ (S : Setting) where
  abbrev pub imports_in :
      Result (List ModuleKey × List (ModuleKey × ImportType) × Text) BundlerError → List ModuleKey
  imports_in (Result.ok (imports, types, printed)) = imports
  imports_in (Result.err e) = []

  -- The modules that a module imports: only a script does.
  unfoldable pub imports_of : ModuleKey → List ModuleKey
  imports_of (ModuleKey.browser_stub s) = []
  imports_of (ModuleKey.embedded s p) =
      let imports = imports_in (analyse S (ModuleKey.embedded s p)) in
      if S.is_script (ModuleKey.embedded s p) then imports else []
  imports_of (ModuleKey.on_disk s p) =
      let imports = imports_in (analyse S (ModuleKey.on_disk s p)) in
      if S.is_script (ModuleKey.on_disk s p) then imports else []

  -- The imports of processed modules are processed or waiting.
  abbrev pub Closed : List ModuleKey → List ModuleKey → Type 0
  Closed processed waiting =
      (k i : ModuleKey)
      → contains processed k ≡ true
      → contains (imports_of k) i ≡ true
      → (contains processed i ≡ true) ⊎ (contains waiting i ≡ true)

  -- The first module is the entry: it was processed first, or it is the next one.
  abbrev pub StartsWith : ModuleKey → List ModuleKey → List ModuleKey → Type 0
  StartsWith entry [] waiting = (rest : List ModuleKey) × (waiting ≡ entry ∷ rest)
  StartsWith entry (k ∷ processed) waiting = oldest (k ∷ processed) ≡ some entry

  -- How many imports the modules that are not processed have, among those of a list.
  abbrev pub cost : List ModuleKey → List ModuleKey → ℕ
  cost [] processed = 0
  cost (k ∷ universe) processed =
      (if contains processed k then 0 else length (imports_of k)) + cost universe processed

  module _ (key : ModuleKey) (processed : List ModuleKey) where
    cost_mono :
        (universe : List ModuleKey) → cost universe (key ∷ processed) ≤ cost universe processed
    cost_mono [] = omega arith
    cost_mono (k ∷ universe) = elim (Bool-cases (contains processed k)) [
      | inl e ↦ rw (e, contains-tail k key processed e) (omega (arith, cost_mono universe))
      | inr e ↦ rw e (elim (Bool-cases (contains (key ∷ processed) k)) [
        | inl f ↦ rw f (omega (arith, cost_mono universe))
        | inr f ↦ rw f (omega (arith, cost_mono universe))
      ])
    ]

    -- A module that is processed takes its imports off.
    pub cost-drop :
        (universe : List ModuleKey)
        → contains processed key ≡ false
        → contains universe key ≡ true
        → cost universe (key ∷ processed) + length (imports_of key) ≤ cost universe processed
    cost-drop [] e h = absurd (unfold contains in cc h)
    cost-drop (k ∷ universe) e h = elim (contains-cons_cases key k universe h) [
      | inl same ↦
          subst
            (λ j.
              cost (j ∷ universe) (key ∷ processed) + length (imports_of key)
              ≤ cost (j ∷ universe) processed)
            same (rw (contains-head key processed, e) (omega (arith, cost_mono universe)))
      | inr later ↦ elim (Bool-cases (contains processed k)) [
        | inl f ↦
            rw (f, contains-tail k key processed f) (omega (arith, cost-drop universe e later))
        | inr f ↦ rw f (elim (Bool-cases (contains (key ∷ processed) k)) [
          | inl g ↦ rw g (omega (arith, cost-drop universe e later))
          | inr g ↦ rw g (omega (arith, cost-drop universe e later))
        ])
      ]
    ]
