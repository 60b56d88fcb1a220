-- ===== src/Bundler/Processed.antt =====
-- What processing a module in the loop of lib/bombadil/src/specification/bundler/mod.rs keeps.
use bombadil.Common.{
  ℕ, ◌+◌, ◌≤◌, true, false, Option, none, some, List, [], ◌∷◌, ◌++◌, map, ◌≡◌, refl, sym, ap, ◌∙◌,
  ◌⊎◌, inl, inr, arith, length, length-append,
}
use mathlib.Core.Path.{subst}
use mathlib.Core.List.{append-nil}
use bombadil.Common.Text.{Text, codes}
use bombadil.Common.Result.{Result}
use bombadil.Common.Run.{Ends, Ends-bind, Ends-expect, Ends-if, ◌>>=◌}
use bombadil.Bundler.Keys.{
  ModuleKey, contains, contains-cons_cases, contains-head, contains-tail, contains-append_left,
  contains-append_right, contains-append_cases,
}
use bombadil.Bundler.Modules.{
  ImportType, BundlerError, ModuleContents, Setting, Module, State, Bundle, analyse, unprocessed,
  lift, push, enqueue, add_types, contents_as, add_type, same_type, type_of, process_file,
  process_script,
}
use bombadil.Bundler.Closed.{Distinct, imports_of, imports_in, Closed, StartsWith, cost, cost-drop}
use bombadil.Bundler.Queue.{unprocessed-part, unprocessed-covers, unprocessed-short}

module _ (S : Setting) (entry : ModuleKey) (universe : List ModuleKey) where
  -- While the keys of `waiting` are to be processed.
  pub record IsCollecting (waiting : List ModuleKey) (s : State) : Type 0 where
    pub listed : map (λ m. m.key) s.modules ≡ s.keys_processed
    pub distinct : Distinct s.keys_processed
    pub closed : Closed S s.keys_processed waiting
    pub starts : StartsWith S entry s.keys_processed waiting
    pub within : (i : ModuleKey) → contains waiting i ≡ true → contains universe i ≡ true

  -- The list contains the imports of its modules.
  abbrev pub HasImports : Type 0
  HasImports =
      (k i : ModuleKey)
      → contains universe k ≡ true
      → contains (imports_of S k) i ≡ true
      → contains universe i ≡ true

  abbrev pub measure : State → ℕ
  measure s = length s.queue + cost S universe s.keys_processed

  -- After a key was processed.
  abbrev pub After : ℕ → State → Type 0
  After bound s = IsCollecting s.queue s × (measure s ≤ bound)

  starts_after :
      (processed queue more : List ModuleKey) (key : ModuleKey)
      → StartsWith S entry processed (key ∷ queue)
      → StartsWith S entry (key ∷ processed) more
  starts_after [] queue more key (rest, e) = ap some (cc e)
  starts_after (k ∷ processed) queue more key e = e

  module _ (has_imports : HasImports) where
    -- A processed key with the part of its imports that is added to the queue.
    pushed :
        (s t : State) (key : ModuleKey) (added : List ModuleKey) (m : Module)
        → IsCollecting (key ∷ s.queue) s
        → contains s.keys_processed key ≡ false
        → ((i : ModuleKey)
            → contains (imports_of S key) i ≡ true
            → (contains s.keys_processed i ≡ true) ⊎ (contains added i ≡ true))
        → ((i : ModuleKey) → contains added i ≡ true → contains (imports_of S key) i ≡ true)
        → length added ≤ length (imports_of S key)
        → m.key ≡ key
        → t.modules ≡ m ∷ s.modules
        → t.keys_processed ≡ key ∷ s.keys_processed
        → t.queue ≡ s.queue ++ added
        → After (length s.queue + cost S universe s.keys_processed) t
    pushed s t key added m c fresh covers part short mk em ek eq = (
      record {
        listed = ap (map (λ n. n.key)) em ∙ cc (mk, c.listed) ∙ sym ek;
        distinct = subst Distinct (sym ek) (fresh, c.distinct);
        closed =
            subst (λ ks. Closed S ks t.queue) (sym ek) (subst (Closed S _) (sym eq) closed_after);
        starts =
            subst (λ ks. StartsWith S entry ks t.queue) (sym ek)
              (starts_after s.keys_processed s.queue t.queue key c.starts);
        within =
            subst (λ q. (i : ModuleKey) → contains q i ≡ true → contains universe i ≡ true) (sym eq)
              within_after;
      },
      bound,
    )
      where
        known : contains universe key ≡ true
        known = c.within key (contains-head key s.queue)

        closed_after : Closed S (key ∷ s.keys_processed) (s.queue ++ added)
        closed_after k i p q = elim (contains-cons_cases k key s.keys_processed p) [
          | inl same ↦ elim (covers i (subst (λ j. contains (imports_of S j) i ≡ true) same q)) [
            | inl a ↦ inl (contains-tail i key s.keys_processed a)
            | inr a ↦ inr (contains-append_right i s.queue added a)
          ]
          | inr before ↦ elim (c.closed k i before q) [
            | inl a ↦ inl (contains-tail i key s.keys_processed a)
            | inr a ↦ elim (contains-cons_cases i key s.queue a) [
              | inl same ↦ inl (
                  subst (λ j. contains (key ∷ s.keys_processed) j ≡ true) (sym same)
                    (contains-head key s.keys_processed))
              | inr b ↦ inr (contains-append_left i s.queue added b)
            ]
          ]
        ]

        within_after :
            (i : ModuleKey) → contains (s.queue ++ added) i ≡ true → contains universe i ≡ true
        within_after i h = elim (contains-append_cases i s.queue added h) [
          | inl a ↦ c.within i (contains-tail i key s.queue a)
          | inr a ↦ has_imports key i known (part i a)
        ]

        bound :
            length t.queue + cost S universe t.keys_processed
            ≤ length s.queue + cost S universe s.keys_processed
        bound =
            rw (eq, ek, length-append s.queue added)
              (omega (arith, cost-drop S key s.keys_processed universe fresh known, short))

    abbrev Kept : State → State → Type 0
    Kept s t = (t.modules ≡ s.modules) × (t.keys_processed ≡ s.keys_processed) × (t.queue ≡ s.queue)

    add_types-Kept :
        (types : List (ModuleKey × ImportType)) (s t : State)
        → Kept s t
        → Ends (λ _ w. Kept s w) (λ _. Unit {0}) (add_types S types t)
    unfolding add_types
    add_types-Kept [] s t k = k
    add_types-Kept ((key, kind) ∷ types) s t k =
        Ends-bind (λ _ w. Kept s w) (λ _ w. Kept s w) _
          (add_type S key kind (type_of key t.import_types)) _ t
          (added (type_of key t.import_types)) λ _ w l. add_types-Kept types s w l
      where
        added :
            (o : Option ImportType)
            → Ends (λ _ w. Kept s w) (λ _. Unit {0}) (add_type S key kind o t)
        added none = k
        added (some existing) =
            Ends-if (λ _ w. Kept s w) (λ _. Unit {0}) (same_type existing kind) _ _ t (λ _. k)
              λ _. tt

    Ends-lift :
        {A B : Type 0} (Q : B → State → Type 0) (r : Result A BundlerError) (f : A → Bundle B)
        (s : State)
        → ((a : A) → r ≡ Result.ok a → Ends Q (λ _. Unit {0}) (f a s))
        → Ends Q (λ _. Unit {0}) ((lift r >>= f) s)
    Ends-lift Q (Result.ok a) f s h = h a refl
    Ends-lift Q (Result.err e) f s h = tt

    module _ (s : State) (key : ModuleKey) (c : IsCollecting (key ∷ s.queue) s)
        (fresh : contains s.keys_processed key ≡ false) where
      abbrev pub Done : Unit {0} → State → Type 0
      Done _ t = After (length s.queue + cost S universe s.keys_processed) t

      -- A module without imports.
      pub push_plain :
          (contents : ModuleContents)
          → imports_of S key ≡ []
          → Ends Done (λ _. Unit {0}) (push key contents s)
      unfolding push
      push_plain contents e =
          pushed s _ key [] _ c fresh
            (λ i h. absurd (unfold contains in cc (subst (λ is. contains is i ≡ true) e h)))
            (λ i h. absurd (unfold contains in cc h)) (omega arith) refl refl refl
            (sym (append-nil s.queue))

      pub process_file-Ends :
          imports_of S key ≡ [] → Ends Done (λ _. Unit {0}) (process_file S key s)
      unfolding process_file
      process_file-Ends e =
          Ends-expect Done (λ _. Unit {0}) (S.read key) _ _ s tt
            λ raw.
              Ends-lift Done
                (contents_as S (type_of key s.import_types) (S.has_json_extension key) raw)
                (push key) s λ contents _. push_plain contents e

      abbrev coded : Text → Module
      coded printed = record {
        key = key;
        contents = ModuleContents.code (codes "module.exports.__esModule=true;" ++ printed);
      }

      pub process_script-Ends :
          imports_of S key ≡ imports_in S (analyse S key)
          → Ends Done (λ _. Unit {0}) (process_script S key s)
      unfolding process_script enqueue push
      process_script-Ends e = Ends-lift Done (analyse S key) _ s λ x ex.
          let exact : imports_of S key ≡ x.0 = e ∙ ap (imports_in S) ex in
          let added = unprocessed S s.keys_processed (x.0) in
          let queued : State = record s { queue = s.queue ++ added } in
          Ends-bind (λ _ w. Kept queued w) Done _ (add_types S (x.1)) _ queued
            (add_types-Kept (x.1) queued queued (refl, refl, refl))
            λ _ w kept.
              pushed s _ key added (coded (x.2)) c fresh
                (λ i h.
                  unprocessed-covers S s.keys_processed (x.0) i
                    (subst (λ is. contains is i ≡ true) exact h))
                (λ i h.
                  subst (λ is. contains is i ≡ true) (sym exact)
                    (unprocessed-part S s.keys_processed (x.0) i h))
                (rw exact (unprocessed-short S s.keys_processed (x.0))) refl
                (ap (λ ms. coded (x.2) ∷ ms) (kept.0)) (ap (λ ks. key ∷ ks) (kept.1)) (kept.2)
