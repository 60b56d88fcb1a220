-- ===== src/Verifier/Tests.antt =====
-- The theorems of `Verifier` at a small runtime: a snapshot is a number, and a thunk reads the first
-- one and returns whether it is not zero.
use bombadil.Common.{ℕ, ◌+◌, true, false, none, List, [], ◌∷◌, ◌≡◌, refl, ltb, ◌==◌}
use bombadil.Common.Run.{ok, Returns, return}
use bombadil.Tree.{leaf, branch, none_left}
use bombadil.Ltl.Domain.{Domain}
use bombadil.Ltl.Formula.{Formula}
use bombadil.Ltl.Syntax.{Syntax}
use bombadil.Ltl.Value.{Value, Residual, Derived, assume_true}
use bombadil.Ltl.Violation.{Violation}
use bombadil.Ltl.Eval.{evaluate}
use bombadil.Ltl.Semantics.{Meaning}
use bombadil.Ltl.Semantics.Nnf.{thunk_formula}
use bombadil.Verifier.{
  PropertyState, Property, Runtime, any_pending, generate_all, step_properties, evaluate_thunk,
  step, is_pending,
}
use bombadil.Verifier.Persist.{AllChecked, watch, watch-always}
use bombadil.Verifier.Decided.{Standing, Runs, Steps, step-Steps}

abbrev small : Domain
small = record {
  Function = ℕ;
  Time = ℕ;
  Duration = ℕ;
  State = ℕ;
  before = ltb;
  add = λ a b. a + b;
  default = 0;
  merge = λ a b. a + b;
  is_empty = λ s. s == 0;
}

-- The page shows the values 1, 1, 0, 0 and so on.
abbrev shows : ℕ → ℕ → Syntax small
shows i function = Syntax.pure (ltb i function) "shown"

abbrev runtimes : ℕ → Runtime small ℕ (Syntax small) ℕ ℕ ℕ ℕ
runtimes i = record {
  update_from_snapshots = λ snapshots calls. ok tt (calls + 1);
  call = λ function calls. ok (0 ∷ [], shows i function) (calls + 1);
  syntax_from_value = λ value. return value;
  collect = λ snapshots. 1;
  generate = λ generator. return (leaf generator);
}

abbrev snapshots : ℕ → List ℕ
snapshots i = i ∷ []

abbrev meaning : Meaning small
meaning i function negated = thunk_formula (shows i function) negated

runs : Runs runtimes snapshots meaning
unfolding evaluate_thunk
runs = record {
  updates = λ i calls. record { value = tt; host = calls + 1; runs = refl; meets = tt };
  generates = λ i g. λ calls. record { value = leaf g; host = calls; runs = refl; meets = tt };
  answers = λ i function negated calls. record {
    value = (meaning i function negated, 1);
    host = calls + 1;
    runs = refl;
    meets = refl;
  };
}

abbrev always_shown_inner : Formula small
always_shown_inner = Formula.thunk 2 false

abbrev always_shown : Formula small
always_shown = Formula.always always_shown_inner none

abbrev eventually_gone : Formula small
eventually_gone = Formula.eventually (Formula.thunk 1 true) none

abbrev properties : List (Property small)
properties =
    record { name = "shown"; state = PropertyState.initial always_shown }
    ∷ record { name = "gone"; state = PropertyState.initial eventually_gone }
    ∷ []

abbrev standings : List (Standing small)
standings = (always_shown, false) ∷ (eventually_gone, false) ∷ []

-- A page that shows 2 violates "shown", which stays pending.
violated_at_two :
    step
      (runtimes 2)
      1
      []
      (snapshots 2)
      30
      (record { name = "shown"; state = (PropertyState.initial always_shown) } ∷ [])
      0
    ≡ ok
        (
          record {
            properties =
                (
                  "shown",
                  Value.false_with
                      (Violation.always
                        (Violation.false_at 30 "shown" 1)
                        always_shown_inner
                        30
                        none
                        30)
                      none,
                )
                ∷ [];
            actions = branch none_left;
            has_pending = true;
          },
          record {
            name = "shown";
            state =
                PropertyState.residual
                  (Residual.derived (Derived.always 30 none always_shown_inner) assume_true);
          }
              ∷ [],
        )
        2
unfolding step evaluate_thunk thunk_formula evaluate step_properties generate_all any_pending
violated_at_two = refl

step-Steps_example :
    Returns
      (step (runtimes 0) 1 (7 ∷ []) (snapshots 0) 10 properties)
      (Steps runtimes snapshots meaning 1 0 standings properties)
unfolding thunk_formula
step-Steps_example =
    step-Steps runtimes snapshots meaning 1 runs 0 (7 ∷ []) 10 standings properties
      ((refl, (refl, (λ i. tt)), refl), ((refl, (refl, (λ i. tt)), refl), tt))

-- The page violates "shown" at the positions 2 and 3, and a violation is reported at both.
watch-always_example :
    Returns
      (watch
        (λ i. evaluate_thunk (runtimes i) (snapshots i))
        1
        0
        (10 ∷ 20 ∷ 30 ∷ 40 ∷ [])
        (PropertyState.initial always_shown))
      (λ r.
        AllChecked meaning 1 always_shown_inner 0 (10 ∷ 20 ∷ 30 ∷ 40 ∷ []) r.0
        × (is_pending r.1 ≡ true))
unfolding thunk_formula
watch-always_example =
    watch-always (λ i. evaluate_thunk (runtimes i) (snapshots i)) meaning runs.answers 1
      always_shown_inner (λ i. tt) (10 ∷ 20 ∷ 30 ∷ 40 ∷ [])
