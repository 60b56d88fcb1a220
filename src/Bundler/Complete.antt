-- ===== src/Bundler/Complete.antt =====
-- That the loop of lib/bombadil/src/specification/bundler/mod.rs ends, with every module that is
-- needed, each once.
use bombadil.Common.{
  ℕ, zero, suc, ◌+◌, ◌<◌, String, true, false, some, List, [], ◌∷◌, map, ◌≡◌, refl, sym, ap, ◌∙◌,
  inl, inr, arith, length, Bool-cases,
}
use mathlib.Core.Path.{subst}
use bombadil.Common.Run.{Run, Ends, Ends-bind, Ends-expect}
use bombadil.Bundler.Keys.{ModuleKey, contains, contains-cons_cases, contains-tail}
use bombadil.Bundler.Modules.{BundlerError, Setting, State, process, turn, collect, modules_of}
use bombadil.Bundler.Closed.{Distinct, oldest, imports_of, Closed, StartsWith, cost}
use bombadil.Bundler.Processed.{
  IsCollecting, HasImports, measure, After, push_plain, process_file-Ends, process_script-Ends,
}

-- The modules that were collected: each key once, the entry first, and every module with all that it
-- imports.
pub record IsComplete (S : Setting) (entry : ModuleKey) (s : State) : Type 0 where
  pub distinct : Distinct (map (λ m. m.key) s.modules)
  pub first : oldest (map (λ m. m.key) s.modules) ≡ some entry
  pub complete :
      (k i : ModuleKey)
      → contains (map (λ m. m.key) s.modules) k ≡ true
      → contains (imports_of S k) i ≡ true
      → contains (map (λ m. m.key) s.modules) i ≡ true

module _ (S : Setting) (entry : ModuleKey) (universe : List ModuleKey)
    (has_imports : HasImports S entry universe) where
  abbrev Collecting : List ModuleKey → State → Type 0
  Collecting = IsCollecting S entry universe

  abbrev Ended : Run State BundlerError (Unit {0}) → Type 0
  Ended = Ends (λ _ t. IsComplete S entry t) (λ _. Unit {0})

  process-Ends :
      (s : State) (key : ModuleKey)
      → Collecting (key ∷ s.queue) s
      → contains s.keys_processed key ≡ false
      → Ends
          (λ _ t. After S entry universe (measure S entry universe s) t)
          (λ _. Unit {0})
          (process S key s)
  unfolding process
  process-Ends s (ModuleKey.browser_stub name) c fresh =
      push_plain S entry universe has_imports s (ModuleKey.browser_stub name) c fresh _
        (unfold imports_of in refl)
  process-Ends s (ModuleKey.embedded name path) c fresh =
      let key = ModuleKey.embedded name path in
      elim (Bool-cases (S.is_script key)) [
        | inl e ↦ rw e (
            process_script-Ends S entry universe has_imports s key c fresh
              (unfold imports_of in rw e refl))
        | inr e ↦ rw e (
            process_file-Ends S entry universe has_imports s key c fresh
              (unfold imports_of in rw e refl))
      ]
  process-Ends s (ModuleKey.on_disk name path) c fresh =
      let key = ModuleKey.on_disk name path in
      elim (Bool-cases (S.is_script key)) [
        | inl e ↦ rw e (
            process_script-Ends S entry universe has_imports s key c fresh
              (unfold imports_of in rw e refl))
        | inr e ↦ rw e (
            process_file-Ends S entry universe has_imports s key c fresh
              (unfold imports_of in rw e refl))
      ]

  -- A key that is processed already is passed over.
  skipped :
      (s t : State) (key : ModuleKey) (queue : List ModuleKey)
      → Collecting (key ∷ queue) s
      → contains s.keys_processed key ≡ true
      → t.modules ≡ s.modules
      → t.keys_processed ≡ s.keys_processed
      → Collecting queue t
  skipped s t key queue c known em ek = record {
    listed = ap (map (λ m. m.key)) em ∙ c.listed ∙ sym ek;
    distinct = subst Distinct (sym ek) c.distinct;
    closed = subst (λ ks. Closed S ks queue) (sym ek) closed_without;
    starts =
        subst (λ ks. StartsWith S entry ks queue) (sym ek)
          (starts_without s.keys_processed c.starts known);
    within = λ i h. c.within i (contains-tail i key queue h);
  }
    where
      closed_without : Closed S s.keys_processed queue
      closed_without k i p q = elim (c.closed k i p q) [
        | inl a ↦ inl a
        | inr a ↦ elim (contains-cons_cases i key queue a) [
          | inl same ↦ inl (subst (λ j. contains s.keys_processed j ≡ true) (sym same) known)
          | inr b ↦ inr b
        ]
      ]

      starts_without :
          (processed : List ModuleKey)
          → StartsWith S entry processed (key ∷ queue)
          → contains processed key ≡ true
          → StartsWith S entry processed queue
      starts_without [] e h = absurd (unfold contains in cc h)
      starts_without (k ∷ processed) e h = e

  popped :
      (s t : State) (waiting : List ModuleKey)
      → Collecting waiting s
      → t.modules ≡ s.modules
      → t.keys_processed ≡ s.keys_processed
      → Collecting waiting t
  popped s t waiting c em ek = record {
    listed = ap (map (λ m. m.key)) em ∙ c.listed ∙ sym ek;
    distinct = subst Distinct (sym ek) c.distinct;
    closed = subst (λ ks. Closed S ks waiting) (sym ek) c.closed;
    starts = subst (λ ks. StartsWith S entry ks waiting) (sym ek) c.starts;
    within = c.within;
  }

  finished : (s : State) → Collecting [] s → IsComplete S entry s
  finished s c = record {
    distinct = subst Distinct (sym c.listed) c.distinct;
    first =
        subst (λ ks. oldest ks ≡ some entry) (sym c.listed) (first_of s.keys_processed c.starts);
    complete =
        subst
          (λ ks.
            (k i : ModuleKey)
            → contains ks k ≡ true
            → contains (imports_of S k) i ≡ true
            → contains ks i ≡ true)
          (sym c.listed) none_waiting;
  }
    where
      first_of :
          (processed : List ModuleKey)
          → StartsWith S entry processed []
          → oldest processed ≡ some entry
      first_of [] (rest, e) = cc e
      first_of (k ∷ processed) e = e

      none_waiting :
          (k i : ModuleKey)
          → contains s.keys_processed k ≡ true
          → contains (imports_of S k) i ≡ true
          → contains s.keys_processed i ≡ true
      none_waiting k i p q = elim (c.closed k i p q) [
        | inl a ↦ a
        | inr a ↦ absurd (unfold contains in cc a)
      ]

  turn-Ends :
      (fuel : ℕ) (queue : List ModuleKey) (s : State)
      → ((t : State)
          → Collecting t.queue t
          → measure S entry universe t < fuel
          → Ended (collect S fuel t))
      → Collecting queue s
      → length queue + cost S universe s.keys_processed < suc fuel
      → Ended (turn S (collect S fuel) queue s)
  unfolding turn
  turn-Ends fuel [] s later c bound = finished s c
  turn-Ends fuel (key ∷ queue) s later c bound =
      let next : State = record s { queue = queue } in
      elim (Bool-cases (contains s.keys_processed key)) [
        | inl e ↦ rw e (later next (skipped s next key queue c e refl refl) (omega (arith, bound)))
        | inr e ↦ rw e (
            Ends-bind (λ _ t. After S entry universe (measure S entry universe next) t) _ _
              (process S key) _ next
              (process-Ends next key (popped s next (key ∷ queue) c refl refl) e)
              λ _ t (d, smaller). later t d (omega (arith, bound, smaller)))
      ]

  collect-Ends :
      (fuel : ℕ) (s : State)
      → Collecting s.queue s
      → measure S entry universe s < fuel
      → Ended (collect S fuel s)
  unfolding collect
  collect-Ends zero s c bound = absurd (omega (arith, bound))
  collect-Ends (suc fuel) s c bound = turn-Ends fuel s.queue s (collect-Ends fuel) c bound

-- Where the entry resolves and is in a list of modules that has all that its modules import, with
-- fuel for the imports of that list, the collection of modules ends; and unless it fails, it has the
-- entry first, no module twice, and every module with all that it imports.
pub modules_of-IsComplete :
    (S : Setting) (entry : ModuleKey) (universe : List ModuleKey) (name : String) (fuel : ℕ)
    → S.resolve name ≡ some entry
    → contains universe entry ≡ true
    → HasImports S entry universe
    → 1 + cost S universe [] < fuel
    → Ends (λ _ t. IsComplete S entry t) (λ _. Unit {0}) (modules_of S fuel name)
unfolding modules_of
modules_of-IsComplete S entry universe name fuel e known has_imports bound =
    Ends-expect (λ _ t. IsComplete S entry t) (λ _. Unit {0}) S.canonicalizes
      BundlerError.not_canonical _ _ tt
      λ _. rw e (
        collect-Ends S entry universe has_imports fuel _
          (record {
            listed = refl;
            distinct = tt;
            closed = λ k i p q. absurd (unfold contains in cc p);
            starts = ([], refl);
            within = λ i h. elim (contains-cons_cases i entry [] h) [
              | inl same ↦ subst (λ j. contains universe j ≡ true) (sym same) known
              | inr none_left ↦ absurd (unfold contains in cc none_left)
            ];
          })
          (omega (arith, bound)))
